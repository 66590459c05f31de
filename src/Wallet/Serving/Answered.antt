-- ===== src/Wallet/Serving/Answered.antt =====
-- The answers of the wallet's loop to all messages (lib/wallet.py).
use mathlib.Core.List.{append-nil}
use lvpn.Prelude.{
  ℕ, ◌≡◌, refl, sym, Bool, true, false, Option, none, some, List, [], ◌∷◌, ◌++◌, if◌then◌else◌,
}
use lvpn.Python.{Result, Exec, ok, err, pure, proceed, when}
use lvpn.Money.{Money}
use lvpn.Session.World.{Registry}
use lvpn.Wallet.Serving.{
  Letter, Round, Ledger, WalletService, inspect, take_message, take_found, serve,
}
use lvpn.Wallet.Serving.Adding.{Order, Adds, Adds-proceed, Quiet, Untouched, Untouched-Quiet}
use lvpn.Wallet.Serving.Taking.{is_exit, AnsweredBy, Taken, take_message-Adds, inspect-Untouched}

module _ {A : Type 0} where
  -- What comes after a message that may end the loop.
  abbrev GoesOn :
      Bool → (List (Letter A) → List (Order A) → Type 0) → List (Letter A) → List (Order A) → Type 0
  GoesOn true R answers sent = (answers ≡ []) × (sent ≡ [])
  GoesOn false R answers sent = R answers sent

  abbrev Turn :
      Option (Letter A)
      → (List (Letter A) → List (Order A) → Type 0)
      → List (Letter A)
      → List (Order A)
      → Type 0
  Turn none R answers sent = R answers sent
  Turn (some l) R answers sent =
      (now : List (Letter A)) × (later : List (Letter A)) × (now_sent : List (Order A))
      × (later_sent : List (Order A)) × (answers ≡ now ++ later)
      × (sent ≡ now_sent ++ later_sent)
      × AnsweredBy l now now_sent
      × GoesOn (is_exit l) R later later_sent

  -- The answers to all messages in their order, up to one that ends the loop.
  abbrev pub AllAnswered : List (Round A) → List (Letter A) → List (Order A) → Type 0
  AllAnswered [] answers sent = (answers ≡ []) × (sent ≡ [])
  AllAnswered (r ∷ rs) answers sent = Turn r.letter (AllAnswered rs) answers sent

module _ {A : Type 0} ⦃m : Money A⦄ (coin_unit : A) (depth : ℕ) (ledger : Ledger)
    (reg : Registry A) where
  due-Untouched :
      (b : Bool) (s : WalletService A) → Untouched s (when b (inspect coin_unit depth ledger reg) s)
  due-Untouched true s = inspect-Untouched coin_unit depth ledger reg s
  due-Untouched false s = (refl, refl)

  Adds-weaken :
      {X : Type 0} (R T : X → List (Letter A) → List (Order A) → Type 0) (s : WalletService A)
      (q : Result X × WalletService A)
      → ((x : X) (bs : List (Letter A)) (ts : List (Order A)) → R x bs ts → T x bs ts)
      → Adds R s q
      → Adds T s q
  Adds-weaken R T s (ok x, v) f (bs, ts, e, g, h) = (bs, ts, e, g, f x bs ts h)
  Adds-weaken R T s (err e, v) f h = tt

  take_found-Turn :
      (letter : Option (Letter A)) (R : List (Letter A) → List (Order A) → Type 0)
      (rest : Exec (WalletService A) (Unit {0})) (s : WalletService A)
      → ((v : WalletService A) → Adds (λ _ bs ts. R bs ts) v (rest v))
      → Adds
          (λ _ bs ts. Turn letter R bs ts)
          s
          (proceed
            (take_found coin_unit depth ledger reg letter s)
            (λ ends. if ends then pure tt else rest))
  unfolding take_found
  take_found-Turn none R rest s later = later s
  take_found-Turn (some l) R rest s later =
      Adds-proceed (Taken coin_unit depth ledger reg l) (λ _ bs ts. Turn (some l) R bs ts) s
        (take_message coin_unit depth ledger reg l s) (λ ends. if ends then pure tt else rest)
        (take_message-Adds coin_unit depth ledger reg l s)
        (λ ends v bs ts (e, h).
          Adds-weaken (λ _ cs us. GoesOn ends R cs us) _ v ((if ends then pure tt else rest) v)
            (λ _ cs us k. (bs, cs, ts, us, refl, refl, h, rw e at k)) (goes_on ends v))
    where
      goes_on :
          (ends : Bool) (v : WalletService A)
          → Adds (λ _ cs us. GoesOn ends R cs us) v ((if ends then pure tt else rest) v)
      goes_on true v =
          ([], [], sym (append-nil v.queue), sym (append-nil v.wallet.sent), (refl, refl))
      goes_on false v = later v

  -- If the loop returns, whatever the wallet, the manager's table and the clock do meanwhile, what it
  -- has added to the queue and what it has asked the wallet for is this, for each message in its
  -- order up to the first that ends the loop: one `Paid` for an order that has been sent once, or one
  -- `UnPaid` for one that has been sent at most once; messages for the user, and no transfer, for the
  -- restoration or creation of a wallet; and nothing for any other message.
  pub serve-AllAnswered :
      (rs : List (Round A)) (s : WalletService A)
      → Adds
          (λ _ answers sent. AllAnswered rs answers sent)
          s
          (serve coin_unit depth ledger reg rs s)
  unfolding serve
  serve-AllAnswered [] s =
      ([], [], sym (append-nil s.queue), sym (append-nil s.wallet.sent), (refl, refl))
  serve-AllAnswered (r ∷ rs) s =
      Adds-proceed Quiet (λ _ bs ts. AllAnswered (r ∷ rs) bs ts) s
        (when r.is_due (inspect coin_unit depth ledger reg) s) _
        (Untouched-Quiet s _ (due-Untouched r.is_due s))
        (λ _ v bs ts (e, f).
          Adds-weaken (λ _ cs us. Turn r.letter (AllAnswered rs) cs us) _ v _
            (λ _ cs us k. rw (e, f) k)
            (take_found-Turn r.letter (AllAnswered rs) (serve coin_unit depth ledger reg rs) v
              (λ w. serve-AllAnswered rs w)))
