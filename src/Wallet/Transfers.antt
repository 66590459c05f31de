-- ===== src/Wallet/Transfers.antt =====
-- A transfer is requested at most once, and only if the balance covers it.
use lvpn.Prelude.{
  ℕ, zero, suc, ◌+◌, String, ◌≡◌, refl, ◌⊎◌, inl, inr, Bool, true, false, Option, none, some, List,
  [], ◌∷◌, ◌++◌, map, arith, Bool-cases,
}
use lvpn.Python.{Result, Exec, ok, err, pure, proceed}
use lvpn.Money.{Money, sum}
use lvpn.Wallet.{
  Balance, Reply, Destination, WalletState, rpc, get_balance, get_unlocked_balance, read_reply,
  amount_of, result, send_transfer, follow, less, decide, transfer,
}

module _ {A : Type 0} ⦃m : Money A⦄ (coin_unit : A) (payments : List (Destination A))
    (paymentid : String) where
  abbrev Total : A
  Total = sum (map (λ (p : Destination A). p.amount) payments)

  abbrev pub Requested : WalletState A → WalletState A → Type 0
  Requested w v = v.sent ≡ w.sent ++ (payments, paymentid) ∷ []

  -- The wallet has said that its balance covers the payments.
  abbrev pub IsCovered : WalletState A → Type 0
  IsCovered w =
      (n : ℕ) × (b : Balance) × (w.replies n ≡ result b)
      × (m.at_most Total (m.times coin_unit b.balance) ≡ true)

  abbrev pub Ended : WalletState A → Result Bool × WalletState A → Type 0
  Ended w (ok true, v) = Requested w v × IsCovered w
  Ended w (_, v) = (v.sent ≡ w.sent) ⊎ (Requested w v × IsCovered w)

  -- One round with the two answers of the wallet.
  round : ℕ → Result (Option Balance) → Result (Option Balance) → Exec (WalletState A) Bool
  unfolding transfer
  round depth (err e) second w = (err e, record w { asked = w.asked + 1 })
  round depth (ok o) (err e) w = (err e, record w { asked = w.asked + 1 + 1 })
  round depth (ok o) (ok b) w =
      follow coin_unit
        (decide coin_unit Total (amount_of coin_unit (λ u. u.unlocked) o)
          (amount_of coin_unit (λ u. u.balance) b))
        (transfer coin_unit depth payments paymentid) payments paymentid
        (record w { asked = w.asked + 1 + 1 })

  -- What a round does after its first answer, and after its second.
  after_second : ℕ → Option A → Result (Option Balance) → Exec (WalletState A) Bool
  after_second depth ubalance second v =
      proceed
        (proceed (second, record v { asked = v.asked + 1 })
          (λ b. pure (amount_of coin_unit (λ u. u.balance) b)))
        (λ balance.
          follow coin_unit (decide coin_unit Total ubalance balance)
            (transfer coin_unit depth payments paymentid) payments paymentid)

  after_first : ℕ → Result (Option Balance) → Exec (WalletState A) Bool
  unfolding after_second
  after_first depth first w =
      proceed
        (proceed (first, record w { asked = w.asked + 1 })
          (λ b. pure (amount_of coin_unit (λ u. u.unlocked) b)))
        (λ ubalance v. after_second depth ubalance (read_reply false (v.replies v.asked)) v)

  second-round :
      (depth : ℕ) (o : Option Balance) (second : Result (Option Balance)) (w : WalletState A)
      → after_second depth
          (amount_of coin_unit (λ u. u.unlocked) o)
          second
          (record w { asked = w.asked + 1 })
        ≡ round depth (ok o) second w
  unfolding round after_second
  second-round depth o (err e) w = refl
  second-round depth o (ok b) w = refl

  first-round :
      (depth : ℕ) (first : Result (Option Balance)) (w : WalletState A)
      → after_first depth first w ≡ round depth first (read_reply false (w.replies (w.asked + 1))) w
  unfolding round after_first
  first-round depth (err e) w = refl
  first-round depth (ok o) w = second-round depth o (read_reply false (w.replies (w.asked + 1))) w

  transfer-round :
      (depth : ℕ) (w : WalletState A)
      → transfer coin_unit (suc depth) payments paymentid w
        ≡ round depth
            (read_reply false (w.replies w.asked))
            (read_reply false (w.replies (w.asked + 1)))
            w
  unfolding transfer get_balance get_unlocked_balance rpc after_first after_second
  transfer-round depth w = first-round depth (read_reply false (w.replies w.asked)) w

  Ended-asked :
      (w : WalletState A) (n : ℕ) (r : Result Bool × WalletState A)
      → Ended (record w { asked = n }) r
      → Ended w r
  Ended-asked w n (ok true, v) e = e
  Ended-asked w n (ok false, v) e = e
  Ended-asked w n (err _, v) e = e

  Requested-Ended :
      (w v : WalletState A) (q : Result Bool) → Requested w v → IsCovered w → Ended w (q, v)
  Requested-Ended w v (ok true) e c = (e, c)
  Requested-Ended w v (ok false) e c = inr (e, c)
  Requested-Ended w v (err _) e c = inr (e, c)

  sent-Ended :
      (w : WalletState A) → IsCovered w → Ended w (send_transfer coin_unit payments paymentid w)
  unfolding send_transfer rpc
  sent-Ended w covered = Requested-Ended w _ _ refl covered

  result-read_reply : (r : Reply) (b : Balance) → read_reply false r ≡ ok (some b) → r ≡ result b
  unfolding read_reply
  result-read_reply r b e = ground arith

  follow-Ended :
      (depth : ℕ) (w : WalletState A) (o b : Option Balance)
      → read_reply false (w.replies (w.asked + 1)) ≡ ok b
      → Ended
          (record w { asked = w.asked + 1 + 1 })
          (transfer coin_unit depth payments paymentid (record w { asked = w.asked + 1 + 1 }))
      → Ended w (round depth (ok o) (ok b) w)
  unfolding round follow decide less
  follow-Ended depth w o none e later = inl refl
  follow-Ended depth w o (some b) e later =
      let v = record w { asked = w.asked + 1 + 1 } in
      let unlocked = amount_of coin_unit (λ u. u.unlocked) o in
      elim (Bool-cases (m.at_most Total (m.times coin_unit b.balance))) [
        | inr short ↦ simp short (inl refl)
        | inl covers ↦ elim (Bool-cases (less coin_unit unlocked Total)) [
          | inl locked ↦ simp (covers, locked) (Ended-asked w (w.asked + 1 + 1) _ later)
          | inr free ↦
              simp (covers, free)
                (Ended-asked w (w.asked + 1 + 1) _ (
                  sent-Ended v
                    (w.asked + 1, b, result-read_reply (w.replies (w.asked + 1)) b e, covers)))
        ]
      ]

  round-Ended :
      (depth : ℕ) (w : WalletState A) (first second : Result (Option Balance))
      → read_reply false (w.replies (w.asked + 1)) ≡ second
      → Ended
          (record w { asked = w.asked + 1 + 1 })
          (transfer coin_unit depth payments paymentid (record w { asked = w.asked + 1 + 1 }))
      → Ended w (round depth first second w)
  unfolding round
  round-Ended depth w (err _) second e later = inl refl
  round-Ended depth w (ok o) (err _) e later = inl refl
  round-Ended depth w (ok o) (ok b) e later = follow-Ended depth w o b e later

  -- However a transfer ends, after any number of waits for the balance to be unlocked: the wallet has
  -- been asked to make it at most once, and only if it had answered with a balance that covers all
  -- destinations; and if the transfer returns True, it has been asked once.
  pub transfer-Ended :
      (depth : ℕ) (w : WalletState A) → Ended w (transfer coin_unit depth payments paymentid w)
  unfolding transfer
  transfer-Ended zero w = inl refl
  transfer-Ended (suc depth) w =
      rw (transfer-round depth w)
        (round-Ended depth w _ _ refl (transfer-Ended depth (record w { asked = w.asked + 1 + 1 })))
