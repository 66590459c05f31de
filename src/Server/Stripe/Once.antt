-- ===== src/Server/Stripe/Once.antt =====
-- A payment is passed on once, until the wallet has confirmed it.
use lvpn.Prelude.{
  ℕ, ◌+◌, ◌≤◌, String, ◌≡◌, subst, Bool, true, false, Option, none, some, List, [], ◌∷◌, ◌++◌,
  arith, is_some, str_eq, eq_iff, if◌then◌else◌, Bool-cases, inl, inr,
}
use lvpn.Prelude.Dict.{lookup, lookup-put}
use lvpn.Python.{Result, ok, err, and_then}
use lvpn.Server.Stripe.{
  Metadata, PaymentIntent, Stripe, started, send, settle_metadata, take_metadata, take_payment,
  poll, delete, confirm_found, confirm, Event, listed, confirmed, handle, run,
}

abbrev pub count : String → List String → ℕ
count m [] = 0
count m (x ∷ xs) = (if str_eq x m then 1 else 0) + count m xs

abbrev pub confirmations : String → List Event → ℕ
confirmations m [] = 0
confirmations m (listed _ ∷ es) = confirmations m es
confirmations m (confirmed x ∷ es) = (if str_eq x m then 1 else 0) + confirmations m es

count_last :
    (m x : String) (xs : List String)
    → count m (xs ++ x ∷ []) ≡ count m xs + (if str_eq x m then 1 else 0)
count_last m x [] = ground arith
count_last m x (y ∷ ys) = ground (arith, count_last m x ys)

lookup-delete :
    (key other : String) (d : List (String × PaymentIntent))
    → lookup other (delete key d) ≡ (if str_eq key other then none else lookup other d)
lookup-delete key other [] = ground arith
lookup-delete key other ((k, v) ∷ d) =
    ground (arith, eq_iff key other, eq_iff k key, eq_iff k other, lookup-delete key other d)

module _ (m : String) where
  -- After `k` confirmations the message was sent once more than confirmed only if it waits.
  abbrev IsWithin : ℕ → Stripe → Type 0
  IsWithin k s = count m s.queue ≤ k + (if is_some (lookup m s.messages) then 1 else 0)

  send-IsWithin :
      (p : PaymentIntent) (x : String) (s : Stripe) (k : ℕ) → IsWithin k s → IsWithin k (send p x s)
  unfolding send
  send-IsWithin p x s k h =
      ground (arith, count_last m x s.queue, lookup-put x m p s.messages, eq_iff x m)

  confirm-IsWithin :
      (x : String) (s : Stripe) (k : ℕ)
      → IsWithin k s
      → IsWithin ((if str_eq x m then 1 else 0) + k) (confirm x s)
  unfolding confirm confirm_found
  confirm-IsWithin x s k h = ground (arith, lookup-delete x m s.messages, eq_iff x m)

  module _ (pay : String → ℕ → String → String → Result String) where
    -- A result, if there is one, is within the bound.
    abbrev Within : ℕ → Result Stripe → Type 0
    Within k (ok s) = IsWithin k s
    Within k (err _) = Unit

    Within-and_then :
        (k l : ℕ) (r : Result Stripe) (f : Stripe → Result Stripe)
        → Within k r
        → ((s : Stripe) → IsWithin k s → Within l (f s))
        → Within l (and_then r f)
    Within-and_then k l (ok s) f h next = next s h
    Within-and_then k l (err e) f h next = tt

    send-Within :
        (p : PaymentIntent) (r : Result String) (s : Stripe) (k : ℕ)
        → IsWithin k s
        → Within k (and_then r (λ x. ok (send p x s)))
    send-Within p (ok x) s k h = send-IsWithin p x s k h
    send-Within p (err e) s k h = tt

    settle-Within :
        (p : PaymentIntent) (paid : Bool) (wallet paymentid amount1 : Option String) (s : Stripe)
        (k : ℕ)
        → IsWithin k s
        → Within k (settle_metadata pay p paid wallet paymentid amount1 s)
    unfolding settle_metadata
    settle-Within p true wallet paymentid amount1 s k h = h
    settle-Within p false (some wallet) (some paymentid) (some amount1) s k h =
        send-Within p (pay wallet p.amount amount1 paymentid) s k h
    settle-Within p false none paymentid amount1 s k h = h
    settle-Within p false (some wallet) none amount1 s k h = h
    settle-Within p false (some wallet) (some paymentid) none s k h = h

    take_metadata-Within :
        (p : PaymentIntent) (d : Option Metadata) (s : Stripe) (k : ℕ)
        → IsWithin k s
        → Within k (take_metadata pay p d s)
    unfolding take_metadata
    take_metadata-Within p none s k h = h
    take_metadata-Within p (some d) s k h =
        settle-Within p d.paid d.wallet d.paymentid d.amount1 s k h

    take_payment-Within :
        (p : PaymentIntent) (s : Stripe) (k : ℕ) → IsWithin k s → Within k (take_payment pay p s)
    unfolding take_payment
    take_payment-Within p s k h = elim (Bool-cases p.succeeded) [
      | inl e ↦ simp e (take_metadata-Within p p.metadata s k h)
      | inr e ↦ simp e h
    ]

    poll-Within :
        (ps : List PaymentIntent) (s : Stripe) (k : ℕ) → IsWithin k s → Within k (poll pay ps s)
    unfolding poll
    poll-Within [] s k h = h
    poll-Within (p ∷ ps) s k h =
        Within-and_then k k (take_payment pay p s) (poll pay ps) (take_payment-Within p s k h)
          (λ t g. poll-Within ps t k g)

    run-Within :
        (es : List Event) (s : Stripe) (k : ℕ)
        → IsWithin k s
        → Within (confirmations m es + k) (run pay es s)
    unfolding run handle
    run-Within [] s k h = ground (arith, h)
    run-Within (listed ps ∷ es) s k h =
        Within-and_then k (confirmations m es + k) (poll pay ps s) (run pay es)
          (poll-Within ps s k h) (λ t g. run-Within es t k g)
    run-Within (confirmed x ∷ es) s k h =
        let more : ℕ = if str_eq x m then 1 else 0 in
        let same : confirmations m es + (more + k) ≡ more + confirmations m es + k = omega arith in
        subst (λ n. Within n (run pay es (confirm x s))) same
          (run-Within es (confirm x s) (more + k) (confirm-IsWithin x s k h))

-- Whatever Stripe lists and whatever is confirmed, in any order, a message to the wallet has been
-- sent at most once more often than it has been confirmed.
pub run_sends_once :
    (pay : String → ℕ → String → String → Result String) (es : List Event) (m : String) (s : Stripe)
    → run pay es started ≡ ok s
    → count m s.queue ≤ confirmations m es + 1
run_sends_once pay es m s e =
    let within : Within m pay (confirmations m es + 0) (ok s) =
      subst (Within m pay (confirmations m es + 0)) e
        (run-Within m pay es started 0 (ground arith)) in
    ground (arith, within)
