-- ===== src/Wallet.antt =====
-- `Wallet.rpc`, the balances and `Wallet.transfer` (lib/wallet.py).
pub mod Transfers
pub mod Serving
use lvpn.Prelude.{
  ℕ, zero, suc, ◌+◌, String, Bool, true, false, Option, none, some, List, [], ◌∷◌, ◌++◌, not, map,
  if◌then◌else◌,
}
use lvpn.Prelude.Int.{ℤ, pos}
use lvpn.Python.{
  Error, Result, Exec, ok, err, pure, raise, lift, modify, value_error, recursion_error,
  wallet_error, ◌>>=◌, ◌>>◌,
}
use lvpn.Money.{Money, sum}

-- The wallet's balances in coin units.
pub record Balance : Type 0 where
  pub balance : ℕ
  pub unlocked : ℕ

-- How a request to the wallet program may end.
pub data Reply : Type 0 where
  no_connection timed_out malformed other_content : Reply
  -- a status other than 200
  status : ℕ → Reply
  error_reply : ℤ → Reply
  result : Balance → Reply

-- A destination's wallet and its amount, which the request carries in whole coin units.
pub record Destination (A : Type 0) : Type 0 where
  pub wallet : String
  pub amount : A

pub record WalletState (A : Type 0) : Type 0 where
  -- the wallet's answer to the nth request
  pub replies : ℕ → Reply
  pub asked : ℕ
  -- the transfers that were requested
  pub sent : List (List (Destination A) × String)

-- `rpc`: without `exc`, an error of the wallet and a missing connection are `False`, here `none`; a
-- timeout always is.
unfoldable pub read_reply : Bool → Reply → Result (Option Balance)
read_reply exc no_connection = if exc then err (wallet_error (pos 500)) else ok none
read_reply exc timed_out = ok none
read_reply exc malformed = err value_error
read_reply exc other_content = err (wallet_error (pos 501))
read_reply exc (status code) = err (wallet_error (pos code))
read_reply exc (error_reply code) = if exc then err (wallet_error code) else ok none
read_reply exc (result b) = ok (some b)

module _ {A : Type 0} where
  unfoldable pub rpc : Bool → Exec (WalletState A) (Option Balance)
  unfolding read_reply
  rpc exc w = (read_reply exc (w.replies w.asked), record w { asked = w.asked + 1 })

module _ {A : Type 0} ⦃m : Money A⦄ (coin_unit : A) where
  amount_of : (Balance → ℕ) → Option Balance → Option A
  amount_of field none = none
  amount_of field (some b) = some (m.times coin_unit (field b))

  unfoldable pub get_balance : Exec (WalletState A) (Option A)
  unfolding rpc amount_of
  get_balance = do b ← rpc false; pure (amount_of (λ b. b.balance) b)

  unfoldable pub get_unlocked_balance : Exec (WalletState A) (Option A)
  unfolding rpc amount_of
  get_unlocked_balance = do b ← rpc false; pure (amount_of (λ b. b.unlocked) b)

  -- `a < b`, where `False` counts as 0.
  less : Option A → A → Bool
  less none b = not (m.at_most b m.nothing)
  less (some a) b = not (m.at_most b a)

  -- The `except` takes the wallet's own exceptions only.
  caught : Result (Option Balance) → Result Bool
  caught (ok _) = ok true
  caught (err (wallet_error _)) = ok false
  caught (err e) = err e

  pub send_transfer : List (Destination A) → String → Exec (WalletState A) Bool
  unfolding rpc caught
  send_transfer payments paymentid w =
      let (r, v) = rpc true (record w { sent = w.sent ++ (payments, paymentid) ∷ [] }) in
      (caught r, v)

  -- What one round decides: nothing to send, not unlocked yet, or send.
  pub data Decision : Type 0 where
    refuse wait proceed_with : Decision

  pub decide : A → Option A → Option A → Decision
  unfolding less
  decide amount ubalance none = refuse
  decide amount ubalance (some balance) =
      if less (some balance) amount
      then refuse
      else if less ubalance amount
      then wait
      else proceed_with

  pub follow :
      Decision
      → Exec (WalletState A) Bool
      → List (Destination A)
      → String
      → Exec (WalletState A) Bool
  unfolding send_transfer
  follow refuse again payments paymentid = pure false
  follow wait again payments paymentid = again
  follow proceed_with again payments paymentid = send_transfer payments paymentid

  -- `transfer` calls itself while the balance is locked, up to Python's limit on recursion.
  unfoldable pub transfer : ℕ → List (Destination A) → String → Exec (WalletState A) Bool
  unfolding get_balance get_unlocked_balance decide follow
  transfer zero payments paymentid = raise recursion_error
  transfer (suc depth) payments paymentid = do
    ubalance ← get_unlocked_balance
    balance ← get_balance
    follow (decide (sum (map (λ p. p.amount) payments)) ubalance balance)
        (transfer depth payments paymentid) payments paymentid
