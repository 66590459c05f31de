-- ===== src/Client/Connections/Check.antt =====
-- The check of all connections leaves every second one of those that are dead.
use mathlib.Core.List.{append-nil, append_assoc}
use lvpn.Prelude.{
  ℕ, zero, suc, ◌<◌, String, ◌≡◌, refl, sym, ap, subst, ◌∙◌, Bool, false, none, some, List, [], ◌∷◌,
  ◌++◌, not, select, select-append, length, length-append, any, any-append, All, str_eq, eq_refl,
  eq_iff, arith,
}
use lvpn.Python.{Result, ok}
use lvpn.Client.Connections.{Connection, remove, get_elem?, check_one, check_from, check_alive}

-- The connections at the odd positions.
abbrev pub skipped : List Connection → List Connection
skipped [] = []
skipped (c ∷ []) = []
skipped (c ∷ d ∷ cs) = d ∷ skipped cs

-- No id comes twice.
abbrev pub HasDistinctIds : List Connection → Type 0
HasDistinctIds [] = Unit
HasDistinctIds (c ∷ cs) =
    (any (λ d. str_eq d.connectionid c.connectionid) cs ≡ false) × HasDistinctIds cs

get_elem?-append :
    (before : List Connection) (c : Connection) (cs : List Connection)
    → get_elem? (before ++ c ∷ cs) (length before) ≡ some c
get_elem?-append [] c cs = refl
get_elem?-append (b ∷ bs) c cs = get_elem?-append bs c cs

get_elem?-length : (cs : List Connection) → get_elem? cs (length cs) ≡ none
get_elem?-length [] = refl
get_elem?-length (c ∷ cs) = get_elem?-length cs

select_others :
    (id : String) (cs : List Connection)
    → any (λ d. str_eq d.connectionid id) cs ≡ false
    → select (λ d. not (str_eq d.connectionid id)) cs ≡ cs
select_others id [] h = refl
select_others id (c ∷ cs) h = ground (arith, select_others id cs)

abbrev is_id : String → Connection → Bool
is_id id d = str_eq d.connectionid id

HasDistinctIds-middle :
    (xs : List Connection) (c : Connection) (ys : List Connection)
    → HasDistinctIds (xs ++ c ∷ ys)
    → (any (is_id c.connectionid) xs ≡ false)
      × (any (is_id c.connectionid) ys ≡ false)
      × HasDistinctIds (xs ++ ys)
HasDistinctIds-middle [] c ys k = (refl, k.0, k.1)
HasDistinctIds-middle (x ∷ xs) c ys k =
    let (l, r, rest) = HasDistinctIds-middle xs c ys k.1 in
    let apart = any-append (is_id x.connectionid) xs (c ∷ ys) in
    (
      ground (
        arith,
        l,
        k.0,
        apart,
        eq_iff x.connectionid c.connectionid,
        eq_iff c.connectionid x.connectionid,
      ),
      r,
      (ground (arith, k.0, apart, any-append (is_id x.connectionid) xs ys), rest),
    )

remove_middle :
    (xs : List Connection) (c : Connection) (ys : List Connection)
    → HasDistinctIds (xs ++ c ∷ ys)
    → remove c.connectionid (xs ++ c ∷ ys) ≡ xs ++ ys
unfolding remove
remove_middle xs c ys k =
    let (l, r, _) = HasDistinctIds-middle xs c ys k in
    let p : Connection → Bool = λ d. not (is_id c.connectionid d) in
    select-append p xs (c ∷ ys)
    ∙ ap (λ l. l ++ select p (c ∷ ys)) (select_others c.connectionid xs l)
    ∙ ap (λ r. xs ++ r) (ground (arith, eq_refl c.connectionid, select_others c.connectionid ys r))

get_elem?_past : (cs : List Connection) → get_elem? cs (suc (length cs)) ≡ none
get_elem?_past [] = refl
get_elem?_past (c ∷ cs) = get_elem?_past cs

module _ (answers : Connection → Result Bool) where
  check_from_stops :
      (fuel i : ℕ) (cs : List Connection)
      → get_elem? cs i ≡ none
      → check_from answers fuel i cs ≡ (ok tt, cs)
  unfolding check_from check_one
  check_from_stops zero i cs e = refl
  check_from_stops (suc fuel) i cs e =
      ap (λ o. check_one answers (check_from answers fuel (suc i)) o cs) e

  check_from_dead :
      (fuel : ℕ) (before : List Connection) (c : Connection) (cs : List Connection)
      → HasDistinctIds (before ++ c ∷ cs)
      → answers c ≡ ok false
      → check_from answers (suc fuel) (length before) (before ++ c ∷ cs)
        ≡ check_from answers fuel (suc (length before)) (before ++ cs)
  unfolding check_from check_one
  check_from_dead fuel before c cs k dead =
      let next = check_from answers fuel (suc (length before)) in
      let conns = before ++ c ∷ cs in
      ap (λ o. check_one answers next o conns) (get_elem?-append before c cs)
      ∙ rw (dead, check_one) (ap next (remove_middle before c cs k))

  check_from-skipped :
      (fuel : ℕ) (before cs : List Connection)
      → HasDistinctIds (before ++ cs)
      → All (λ c. answers c ≡ ok false) cs
      → length cs < fuel
      → check_from answers fuel (length before) (before ++ cs) ≡ (ok tt, before ++ skipped cs)
  check_from-skipped fuel before [] k dead enough =
      rw (append-nil before)
        (check_from_stops fuel (length before) before (get_elem?-length before))
  check_from-skipped zero before (c ∷ cs) k dead enough = absurd (omega (arith, enough))
  check_from-skipped (suc fuel) before (c ∷ []) k dead enough =
      check_from_dead fuel before c [] k dead.0
      ∙ rw (append-nil before)
          (check_from_stops fuel (suc (length before)) before (get_elem?_past before))
  check_from-skipped (suc fuel) before (c ∷ d ∷ cs) k dead enough =
      let (_, _, rest) = HasDistinctIds-middle before c (d ∷ cs) k in
      let shift : before ++ d ∷ cs ≡ (before ++ d ∷ []) ++ cs =
        sym (append_assoc before (d ∷ []) cs) in
      let along : length (before ++ d ∷ []) ≡ suc (length before) =
        omega (arith, length-append before (d ∷ [])) in
      check_from_dead fuel before c (d ∷ cs) k dead.0
      ∙ ap (check_from answers fuel (suc (length before))) shift
      ∙ ap (λ i. check_from answers fuel i ((before ++ d ∷ []) ++ cs)) (sym along)
      ∙ check_from-skipped fuel (before ++ d ∷ []) cs (subst HasDistinctIds shift rest) dead.1.1
          (omega (arith, enough))
      ∙ ap (λ l. (ok tt, l)) (append_assoc before (d ∷ []) (skipped cs))

  -- Of connections with different ids whose own checks all answer that they are dead, the check takes out every second one, from
  -- the first on: it removes from the list that it is walking along.
  pub check_alive_skips :
      (conns : List Connection)
      → HasDistinctIds conns
      → All (λ c. answers c ≡ ok false) conns
      → check_alive answers conns ≡ (ok tt, skipped conns)
  unfolding check_alive
  check_alive_skips conns k dead =
      check_from-skipped (suc (length conns)) [] conns k dead (omega arith)
