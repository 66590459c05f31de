-- ===== src/Session/Invoice/Totals.antt =====
-- How often the messages of a session pay each contribution.
use lvpn.Prelude.{
  ℕ, suc, ◌+◌, ◌*◌, String, ◌≡◌, refl, ap, some, List, [], ◌∷◌, ◌++◌, arith, length, length-append,
  All,
}
use lvpn.Session.Data.{Session, Contribution, Price, amount}
use lvpn.Session.Invoice.{PayMessage, contribution_msgs, get_pay_msgs}

module _ {A : Type 0} where
  -- The number of payments that the messages ask for.
  abbrev pub count_payments : List (PayMessage A) → ℕ
  count_payments [] = 0
  count_payments (x ∷ xs) = length x.payments + count_payments xs

  -- The message begins with a payment to the contribution's wallet of its price.
  abbrev pub StartsWith : Contribution A → PayMessage A → Type 0
  StartsWith c x =
      (rest : List (String × Price A)) × (x.payments ≡ (c.wallet, amount c.price) ∷ rest)

  contribution_msgs-StartsWith :
      (c : Contribution A) (payments : List (String × Price A)) (cs : List (Contribution A))
      → All (StartsWith c) (contribution_msgs ((c.wallet, amount c.price) ∷ payments) cs)
  unfolding contribution_msgs
  contribution_msgs-StartsWith c payments [] = tt
  contribution_msgs-StartsWith c payments (d ∷ cs) = (
    (payments ++ (d.wallet, amount d.price) ∷ [], refl),
    contribution_msgs-StartsWith c (payments ++ (d.wallet, amount d.price) ∷ []) cs,
  )

  length-contribution_msgs :
      (payments : List (String × Price A)) (cs : List (Contribution A))
      → length (contribution_msgs payments cs) ≡ length cs
  unfolding contribution_msgs
  length-contribution_msgs payments [] = refl
  length-contribution_msgs payments (c ∷ cs) =
      ap suc (length-contribution_msgs (payments ++ (c.wallet, amount c.price) ∷ []) cs)

  count_payments-contribution_msgs :
      (payments : List (String × Price A)) (cs : List (Contribution A))
      → 2 * count_payments (contribution_msgs payments cs)
        ≡ 2 * length payments * length cs + length cs * (length cs + 1)
  unfolding contribution_msgs
  count_payments-contribution_msgs payments [] = omega arith
  count_payments-contribution_msgs payments (c ∷ cs) =
      let longer = payments ++ (c.wallet, amount c.price) ∷ [] in
      let grown = length-append payments ((c.wallet, amount c.price) ∷ []) in
      omega (arith, grown, rw grown at (count_payments-contribution_msgs longer cs))

  -- A session with n contributions, of which the first is `c`, asks for 1 + n messages. Each of
  -- the last n pays `c`, and the messages together make 1 + n (n + 1) / 2 payments, where 1 + n
  -- are due.
  pub get_pay_msgs_repeat :
      (s : Session A) (c : Contribution A) (cs : List (Contribution A))
      → s.contributions ≡ some (c ∷ cs)
      → (invoice : PayMessage A) × (msgs : List (PayMessage A)) × (get_pay_msgs s ≡ invoice ∷ msgs)
        × (length msgs ≡ length (c ∷ cs))
        × All (StartsWith c) msgs
        × (2 * count_payments (get_pay_msgs s) ≡ 2 + length (c ∷ cs) * (length (c ∷ cs) + 1))
  unfolding get_pay_msgs
  get_pay_msgs_repeat s c cs e =
      let once : List (String × Price A) = (c.wallet, amount c.price) ∷ [] in
      let msgs = contribution_msgs [] (c ∷ cs) in
      (
        record { payments = (s.wallet, s.price) ∷ []; paymentid = s.paymentid },
        msgs,
        ground arith,
        length-contribution_msgs [] (c ∷ cs),
        (([], refl), contribution_msgs-StartsWith c [] cs),
        ground (arith, count_payments-contribution_msgs [] (c ∷ cs)),
      )
