-- ===== src/Wallet/Serving/Taking.antt =====
-- What the wallet's loop answers to one message (lib/wallet.py).
use mathlib.Core.List.{append-nil, append_assoc}
use lvpn.Prelude.{
  ℕ, ◌+◌, String, ◌≡◌, refl, sym, ◌∙◌, ◌⊎◌, inl, inr, Bool, true, false, Option, none, some, List,
  [], ◌∷◌, ◌++◌, All, All-append,
}
use lvpn.Python.{Result, Result-cases, ok, err, pure, proceed, modify, wallet_error}
use lvpn.Money.{Money}
use lvpn.Session.World.{Registry}
use lvpn.Messages.{
  Message, exit, pay, restore_wallet, create_wallet, paid, unpaid, gui_popup, connect, disconnect,
  connect_info,
}
use lvpn.Messages as M
use lvpn.Wallet.{Balance, Destination, WalletState, rpc, read_reply, transfer}
use lvpn.Wallet.Transfers.{transfer-Ended, Ended}
use lvpn.Wallet.Serving.{
  Load, order, seed, no_load, Letter, Ledger, WalletService, in_world, put, popup, shown,
  only_logged, open_wallet, restore, restored, created, create_and_open, process_all, listed,
  inspect_from, inspect, answer, order_paid, take_message,
}
use lvpn.Wallet.Serving.Adding.{
  Order, IsPopup, Adds, Adds-proceed, Untouched, Untouched-proceed, Pops, Pops-proceed,
}

module _ {A : Type 0} where
  abbrev pub is_exit : Letter A → Bool
  is_exit exit = true
  is_exit _ = false

  -- The messages that one message is answered with, and the transfers that the wallet is asked for.
  abbrev pub AnsweredBy : Letter A → List (Letter A) → List (Order A) → Type 0
  AnsweredBy (pay (order ps id)) answers sent =
      ((answers ≡ paid (order ps id) ∷ []) × (sent ≡ (ps, id) ∷ []))
      ⊎ ((answers ≡ unpaid (order ps id) ∷ []) × ((sent ≡ []) ⊎ (sent ≡ (ps, id) ∷ [])))
  AnsweredBy (restore_wallet _) answers sent = All IsPopup answers × (sent ≡ [])
  AnsweredBy (create_wallet _) answers sent = All IsPopup answers × (sent ≡ [])
  AnsweredBy _ answers sent = (answers ≡ []) × (sent ≡ [])

  open_wallet-Pops : (s : WalletService A) → Pops s (open_wallet s)
  unfolding open_wallet rpc
  open_wallet-Pops s = go (read_reply true (s.wallet.replies s.wallet.asked))
    where
      go :
          (r : Result (Option Balance))
          → Pops s (
              proceed
                (r, record s { wallet = record s.wallet { asked = s.wallet.asked + 1 } })
                (λ _. pure tt))
      go (ok b) = ([], sym (append-nil s.queue), tt, refl)
      go (err e) = ([], sym (append-nil s.queue), tt, refl)

  created-Pops :
      (s : WalletService A) (q : Result (Unit {0}) × WalletService A)
      → Pops s q
      → Pops s (created q)
  unfolding created popup
  created-Pops s (ok u, v) h = h
  created-Pops s (err (wallet_error e), v) (bs, e', a, b) = (
    bs ++ gui_popup "error" ∷ [],
    rw (e', append_assoc s.queue bs (gui_popup "error" ∷ [])) refl,
    All-append IsPopup bs (gui_popup "error" ∷ []) a (tt, tt),
    b,
  )
  created-Pops s (err _, v) h = h

  create_and_open-Pops : (s : WalletService A) → Pops s (create_and_open s)
  unfolding create_and_open only_logged
  create_and_open-Pops s =
      Pops-proceed s (created (open_wallet s)) (λ _. open_wallet)
        (created-Pops s (open_wallet s) (open_wallet-Pops s)) (λ _ v. open_wallet-Pops v)

  restored-Pops : (l : Load A) (s : WalletService A) → Pops s (restored l s)
  unfolding restored shown restore popup
  restored-Pops (seed words) s = (gui_popup "error" ∷ [], refl, (tt, tt), refl)
  restored-Pops (order ps id) s = (gui_popup "error" ∷ [], refl, (tt, tt), refl)
  restored-Pops no_load s = (gui_popup "error" ∷ [], refl, (tt, tt), refl)

module _ {A : Type 0} ⦃m : Money A⦄ (coin_unit : A) (depth : ℕ) (ledger : Ledger)
    (reg : Registry A) where
  inspect_from-Untouched :
      (height : Option ℕ) (s : WalletService A)
      → Untouched s (inspect_from coin_unit depth ledger reg height s)
  unfolding inspect_from
  inspect_from-Untouched none s = (refl, refl)
  inspect_from-Untouched (some height) s =
      elim (Result-cases (ledger.in_transfers s.inspected height s.skew)) [
        | inr (e, f) ↦ simp f (refl, refl)
        | inl (found, f) ↦ simp f (
            Untouched-proceed s
              (in_world
                (process_all coin_unit depth ledger reg (listed coin_unit depth ledger reg found))
                s)
              (λ _. modify (λ v. record v { skew = 100 })) (refl, refl) (λ _ v. (refl, refl)))
      ]

  pub inspect-Untouched : (s : WalletService A) → Untouched s (inspect coin_unit depth ledger reg s)
  unfolding inspect
  inspect-Untouched s = elim (Result-cases (ledger.heights s.inspected)) [
    | inr (e, f) ↦ simp f (refl, refl)
    | inl (height, f) ↦ simp f (
        Untouched-proceed s (inspect_from coin_unit depth ledger reg height s)
          (λ _. modify (λ v. record v { inspected = v.inspected + 1 }))
          (inspect_from-Untouched height s) (λ _ v. (refl, refl)))
  ]

  order_paid-Adds :
      (ps : List (Destination A)) (id : String) (s : WalletService A)
      → Adds
          (λ _ bs ts. AnsweredBy (pay (order ps id)) bs ts)
          s
          (order_paid coin_unit depth ledger reg (order ps id) s)
  unfolding order_paid answer
  order_paid-Adds ps id s =
      go (transfer coin_unit depth ps id s.wallet) (transfer-Ended coin_unit ps id depth s.wallet)
    where
      go :
          (q : Result Bool × WalletState A)
          → Ended coin_unit ps id s.wallet q
          → Adds
              (λ _ bs ts. AnsweredBy (pay (order ps id)) bs ts)
              s
              (proceed
                (q.0, record s { wallet = q.1 })
                (λ sent. put (answer coin_unit depth ledger reg (order ps id) sent)))
      go (ok true, w) (asked, covered) =
          (paid (order ps id) ∷ [], (ps, id) ∷ [], refl, asked, inl (refl, refl))
      go (ok false, w) (inl none_sent) = (
        unpaid (order ps id) ∷ [],
        [],
        refl,
        none_sent ∙ sym (append-nil s.wallet.sent),
        inr (refl, inl refl),
      )
      go (ok false, w) (inr (asked, covered)) =
          (unpaid (order ps id) ∷ [], (ps, id) ∷ [], refl, asked, inr (refl, inr refl))
      go (err e, w) h = tt

  -- An answer to a message that goes with how the loop goes on.
  abbrev pub Taken : Letter A → Bool → List (Letter A) → List (Order A) → Type 0
  Taken l ends bs ts = (ends ≡ is_exit l) × AnsweredBy l bs ts

  popped :
      (l : Letter A) (s : WalletService A) (q : Result (Unit {0}) × WalletService A)
      → is_exit l ≡ false
      → ((bs : List (Letter A)) → All IsPopup bs → AnsweredBy l bs [])
      → Pops s q
      → Adds (Taken l) s (proceed q (λ _. pure false))
  popped l s (err e, v) x f h = tt
  popped l s (ok u, v) x f (bs, e, a, b) =
      (bs, [], e, b ∙ sym (append-nil s.wallet.sent), (sym x, f bs a))

  no_answer :
      (l : Letter A) (s : WalletService A)
      → AnsweredBy l [] []
      → Adds (Taken l) s (ok (is_exit l), s)
  no_answer l s h = ([], [], sym (append-nil s.queue), sym (append-nil s.wallet.sent), (refl, h))

  pub take_message-Adds :
      (l : Letter A) (s : WalletService A)
      → Adds (Taken l) s (take_message coin_unit depth ledger reg l s)
  unfolding take_message order_paid
  take_message-Adds (pay (order ps id)) s =
      Adds-proceed (λ _ bs ts. AnsweredBy (pay (order ps id)) bs ts) (Taken (pay (order ps id))) s
        (order_paid coin_unit depth ledger reg (order ps id) s) (λ _. pure false)
        (order_paid-Adds ps id s)
        (λ _ v bs ts h. (
          [],
          [],
          sym (append-nil v.queue),
          sym (append-nil v.wallet.sent),
          (refl, rw (append-nil bs, append-nil ts) h),
        ))
  take_message-Adds (pay (seed words)) s = tt
  take_message-Adds (pay no_load) s = tt
  take_message-Adds (restore_wallet l) s =
      popped (restore_wallet l) s (restored l s) refl (λ bs a. (a, refl)) (restored-Pops l s)
  take_message-Adds (create_wallet l) s =
      popped (create_wallet l) s (create_and_open s) refl (λ bs a. (a, refl))
        (create_and_open-Pops s)
  take_message-Adds exit s = no_answer exit s (refl, refl)
  take_message-Adds (connect d) s = no_answer (connect d) s (refl, refl)
  take_message-Adds (disconnect d) s = no_answer (disconnect d) s (refl, refl)
  take_message-Adds (connect_info d) s = no_answer (connect_info d) s (refl, refl)
  take_message-Adds (paid l) s = no_answer (paid l) s (refl, refl)
  take_message-Adds (unpaid l) s = no_answer (unpaid l) s (refl, refl)
  take_message-Adds (M.wallet_error l) s = no_answer (M.wallet_error l) s (refl, refl)
  take_message-Adds (gui_popup t) s = no_answer (gui_popup t) s (refl, refl)
