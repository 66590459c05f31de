-- ===== src/Session/Reuse/Failure.antt =====
-- A session that was reused can never be stored.
use lvpn.Prelude.{ℕ, ◌+◌, ◌≡◌, refl, sym, ap, ◌∙◌, true, false, arith, List, [], ◌∷◌, ◌⊎◌, inl, inr}
use lvpn.Python.{Result, ok, err, proceed, db_error, lift, pure, ok-injective}
use lvpn.Money.{Money}
use lvpn.Session.Data.{Session, SessionData, tuple, is_fresh, daily_price}
use lvpn.Session.World.{World, Registry}
use lvpn.Session.Contributions.{add_contributions}
use lvpn.Session.Contributions.Tuples.{add_contributions_tuple}
use lvpn.Session.Store.{save}
use lvpn.Session.Store.Rows.{save_tuple}
use lvpn.Session.Reuse.{renew, reuse}

List-cases : {A : Type 0} (xs : List A) → (xs ≡ []) ⊎ ((x : A) × (r : List A) × (xs ≡ x ∷ r))
List-cases [] = inl refl
List-cases (x ∷ r) = inr (x, r, refl)

module _ {A : Type 0} ⦃m : Money A⦄ (reg : Registry A) (days : ℕ) (s t : Session A)
    (w w' : World A) where
  -- The new dictionary always comes about, and its price is a tuple.
  renew_tuple :
      (d : SessionData A) × (v : World A) × (renew reg days s w ≡ (ok d, v))
      × (d.price ≡ tuple (m.times (daily_price s.space s.gate) days))
  unfolding renew
  renew_tuple = (_, _, refl, refl)

  with_contributions : Result (SessionData A) → World A → Result (Session A) × World A
  with_contributions r v = proceed (lift r v) (λ d. pure (record s { data_of = d }))

  contributed :
      (r : Result (SessionData A)) (v : World A)
      → with_contributions r v ≡ (ok t, w')
      → r ≡ ok t.data_of
  unfolding with_contributions
  contributed (ok d) v h = ground arith
  contributed (err e) v h = cc

  -- If `reuse` returns at all, then no contributions are set, and a save of the session it returns
  -- writes nothing: while the session is fresh it raises a `DBException`.
  pub reuse_unsavable :
      reuse reg days s w ≡ (ok t, w')
      → (reg.cfg.contributions ≡ [])
        × ((v : World A)
            → ((save t v).1.rows ≡ v.rows)
              × (is_fresh (v.clock + v.delays v.readings) t ≡ true → (save t v).0 ≡ err db_error))
  unfolding reuse with_contributions add_contributions renew_tuple
  reuse_unsavable h =
      let (d, v, renewed, tupled) = renew_tuple in
      let added = contributed (add_contributions reg.cfg.contributions false d) v h in
      elim (List-cases reg.cfg.contributions) [
        | inl unset ↦ (
          unset,
          λ u. save_tuple t (m.times (daily_price s.space s.gate) days) u (
              ap (λ (r : SessionData A). r.price) (sym (ok-injective (rw unset at added)))
              ∙ tupled),
        )
        | inr (entry, rest, set) ↦
            absurd (add_contributions_tuple entry rest false d t.data_of _ tupled (rw set at added))
      ]
