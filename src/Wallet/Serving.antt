-- ===== src/Wallet/Serving.antt =====
-- `Wallet.loop` (lib/wallet.py): the payments that the wallet has received, and the messages.
pub mod Adding
pub mod Taking
pub mod Answered
use lvpn.Prelude.{
  ℕ, ◌+◌, String, Bool, true, false, Option, none, some, List, [], ◌∷◌, ◌++◌, length, if◌then◌else◌,
}
use lvpn.Python.{
  Error, Result, Exec, ok, err, pure, raise, lift, gets, modify, when, attribute_error, key_error,
  wallet_error, ◌>>=◌, ◌>>◌,
}
use lvpn.Money.{Money}
use lvpn.Session.Data.{Payment, Session}
use lvpn.Session.World.{World, Registry}
use lvpn.Sessions.{process_payment}
use lvpn.Messages.{
  Message, exit, connect, disconnect, connect_info, pay, restore_wallet, create_wallet, paid,
  unpaid, gui_popup,
}
use lvpn.Messages as M
use lvpn.Wallet.{Balance, Destination, WalletState, rpc, transfer}

-- An element of `transfers["in"]`, its amount in coin units.
pub record Transfer : Type 0 where
  pub payment_id : String
  pub amount : ℕ
  pub height : ℕ
  pub txid : String

-- What is pickled into a message for the wallet: a transfer's payments and payment id, or a seed.
pub data Load (A : Type 0) : Type 0 where
  order : List (Destination A) → String → Load A
  seed : String → Load A
  no_load : Load A

abbrev pub Letter : Type 0 → Type 0
Letter A = Message (Unit {0}) (Load A)

-- One round of the loop: whether a minute has begun, and what is in the queue.
pub record Round (A : Type 0) : Type 0 where
  pub is_due : Bool
  pub letter : Option (Letter A)

-- What the wallet answers: `get_height`, and `get_in_transfers` at a height and how far
-- it looks back, at each inspection.
pub record Ledger : Type 0 where
  pub heights : ℕ → Result (Option ℕ)
  pub in_transfers : ℕ → ℕ → ℕ → Result (Option (List Transfer))

pub record WalletService (A : Type 0) : Type 0 where
  pub wallet : WalletState A
  pub world : World A
  -- how many blocks the next inspection looks back, and how many inspections were made
  pub skew : ℕ
  pub inspected : ℕ
  -- the messages for other processes
  pub queue : List (Letter A)

module _ {A : Type 0} where
  abbrev pub in_wallet : {X : Type 0} → Exec (WalletState A) X → Exec (WalletService A) X
  in_wallet call s = let (r, w) = call s.wallet in (r, record s { wallet = w })

  abbrev pub in_world : {X : Type 0} → Exec (World A) X → Exec (WalletService A) X
  in_world call s = let (r, w) = call s.world in (r, record s { world = w })

  abbrev pub put : Letter A → Exec (WalletService A) (Unit {0})
  put m s = (ok tt, record s { queue = s.queue ++ m ∷ [] })

  -- The text of the exception goes into the message.
  pub popup : Exec (WalletService A) (Unit {0})
  popup = put (gui_popup "error")

  -- `except Exception`, with a message for the user or with a line in the log.
  shown : Result (Unit {0}) × WalletService A → Result (Unit {0}) × WalletService A
  unfolding popup
  shown (ok u, s) = (ok u, s)
  shown (err e, s) = popup s

  only_logged : Result (Unit {0}) × WalletService A → Result (Unit {0}) × WalletService A
  only_logged (r, s) = (ok tt, s)

  -- `open` and `create`: each is an `rpc` that raises, and whose result is not read.
  pub open_wallet : Exec (WalletService A) (Unit {0})
  unfolding rpc
  open_wallet = do in_wallet (rpc true); pure tt

  -- The option is called `tmp_dir`, not `tmpdir`: the program is never started.
  restore : String → Exec (WalletService A) (Unit {0})
  restore words = raise attribute_error

  -- A load without a seed raises as well.
  pub restored : Load A → Exec (WalletService A) (Unit {0})
  unfolding shown open_wallet restore
  restored (seed words) s = shown ((restore words >> open_wallet) s)
  restored _ s = shown (err key_error, s)

  -- Only a `WalletException` of the creation is followed by the opening.
  pub created : Result (Unit {0}) × WalletService A → Result (Unit {0}) × WalletService A
  unfolding popup
  created (err (wallet_error _), s) = popup s
  created (r, s) = (r, s)

  pub create_and_open : Exec (WalletService A) (Unit {0})
  unfolding created only_logged open_wallet
  create_and_open s = only_logged (((λ v. created (open_wallet v)) >> open_wallet) s)

module _ {A : Type 0} ⦃m : Money A⦄ (coin_unit : A) (depth : ℕ) (ledger : Ledger)
    (reg : Registry A) where
  abbrev payment : Transfer → Payment A
  payment p = record { amount = m.times coin_unit p.amount; height = p.height; txid = p.txid }

  -- How many sessions were updated.
  process_all : List Transfer → Exec (World A) ℕ
  unfolding process_payment
  process_all [] = pure 0
  process_all (p ∷ ps) = do
    processed ← process_payment reg p.payment_id (payment p)
    more ← process_all ps
    pure (length processed + more)

  -- A wallet that does not answer has no transfers.
  listed : Option (List Transfer) → List Transfer
  listed none = []
  listed (some ps) = ps

  -- The long look back is over once the height is known, whether the transfers are or not.
  pub inspect_from : Option ℕ → Exec (WalletService A) (Unit {0})
  unfolding process_all listed
  inspect_from none = pure tt
  inspect_from (some height) = do
    found ← (λ s. lift (ledger.in_transfers s.inspected height s.skew) s)
    in_world (process_all (listed found))
    modify (λ s. record s { skew = 100 })

  -- A height of 0 counts as none in what is logged only.
  pub inspect : Exec (WalletService A) (Unit {0})
  unfolding inspect_from
  inspect = do
    height ← (λ s. lift (ledger.heights s.inspected) s)
    inspect_from height
    modify (λ s. record s { inspected = s.inspected + 1 })

  answer : Load A → Bool → Letter A
  answer l true = paid l
  answer l false = unpaid l

  pub order_paid : Load A → Exec (WalletService A) (Unit {0})
  unfolding answer transfer
  order_paid (order payments paymentid) = do
    sent ← in_wallet (transfer coin_unit depth payments paymentid)
    put (answer (order payments paymentid) sent)
  order_paid _ = raise key_error

  -- Whether the message ends the loop.
  pub take_message : Letter A → Exec (WalletService A) Bool
  unfolding order_paid restored create_and_open
  take_message (pay l) = do order_paid l; pure false
  take_message (restore_wallet l) = do restored l; pure false
  take_message (create_wallet l) = do create_and_open; pure false
  take_message exit = pure true
  take_message _ = pure false

  pub take_found : Option (Letter A) → Exec (WalletService A) Bool
  unfolding take_message
  take_found none = pure false
  take_found (some msg) = take_message msg

  -- The loop over so many rounds as the wallet program runs.
  unfoldable pub serve : List (Round A) → Exec (WalletService A) (Unit {0})
  unfolding inspect take_found
  serve [] = pure tt
  serve (r ∷ rs) = do
    when r.is_due inspect
    ends ← take_found r.letter
    let rest = serve rs
    if ends then pure tt else rest
