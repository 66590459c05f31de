-- ===== src/Client/Proxy/Refreshing/Taking.antt =====
-- How an entry of `processes` and its connections are taken out (client/proxy.py).
use lvpn.Prelude.{
  ℕ, zero, suc, String, ◌≡◌, refl, ap, ◌∙◌, inl, inr, Bool, true, false, Bool-cases, Option, none,
  some, List, [], ◌∷◌, ◌++◌, length, any, any-append, str_eq, eq_iff, arith,
}
use lvpn.Prelude.Dict.{member}
use lvpn.Python.{Error, Result, Exec, err, Result-cases}
use lvpn.Client.Connections.{Connection, remove, check_alive, check_one, check_from, get_elem?}
use lvpn.Client.Connections as C
use lvpn.Client.Proxy.{Child, nothing, popen, forked, same_child, Entry}
use lvpn.Client.Proxy.Reached.{In, In-remove, get-remove, get-remove-none}
use lvpn.Client.Proxy.Refreshing.{System, is_alive, take_out, remove_all, without}

-- No two entries have the same process; entries without one may be many.
abbrev pub HasOwn : List Entry → Type 0
HasOwn [] = Unit
HasOwn (e ∷ es) = (any (λ f. same_child f.process e.process) es ≡ false) × HasOwn es

same_child_sym : (p q : Child) → same_child p q ≡ false → same_child q p ≡ false
same_child_sym (popen a) (popen b) h = ground arith
same_child_sym (forked a) (forked b) h = ground arith
same_child_sym nothing nothing h = refl
same_child_sym nothing (popen b) h = refl
same_child_sym nothing (forked b) h = refl
same_child_sym (popen a) nothing h = refl
same_child_sym (popen a) (forked b) h = refl
same_child_sym (forked a) nothing h = refl
same_child_sym (forked a) (popen b) h = refl

abbrev has : Child → Entry → Bool
has p f = same_child f.process p

pub HasOwn-middle :
    (ds : List Entry) (e : Entry) (es : List Entry)
    → HasOwn (ds ++ e ∷ es)
    → (any (has e.process) ds ≡ false) × HasOwn (ds ++ es)
HasOwn-middle [] e es h = (refl, h.1)
HasOwn-middle (d ∷ ds) e es h =
    let (apart, rest) = HasOwn-middle ds e es h.1 in
    (
      ground (
        arith,
        apart,
        h.0,
        any-append (has d.process) ds (e ∷ es),
        same_child_sym e.process d.process,
      ),
      (
        ground
            (arith, h.0, any-append (has d.process) ds (e ∷ es), any-append (has d.process) ds es),
        rest,
      ),
    )

pub take_out_middle :
    (ds : List Entry) (e : Entry) (es : List Entry)
    → any (has e.process) ds ≡ false
    → same_child e.process e.process ≡ true
    → take_out e.process (ds ++ e ∷ es) ≡ ds ++ es
unfolding take_out
take_out_middle [] e es h same = rw same
take_out_middle (d ∷ ds) e es h same = ground (arith, take_out_middle ds e es)

pub same_child_refl : (sys : System) (p : Child) → is_alive sys p ≡ false → same_child p p ≡ true
same_child_refl sys nothing h = absurd (cc)
same_child_refl sys (popen a) h = ground arith
same_child_refl sys (forked a) h = ground arith

remove_all-none :
    (id : String) (ids : List String) (cs : List Connection)
    → C.get id cs ≡ none
    → C.get id (remove_all ids cs) ≡ none
unfolding remove_all
remove_all-none id [] cs h = h
remove_all-none id (i ∷ is) cs h = remove_all-none id is (remove i cs) (get-remove-none id i cs h)

pub without-none :
    (id : String) (found : Option Connection) (cs : List Connection)
    → C.get id cs ≡ none
    → C.get id (without found cs) ≡ none
unfolding without
without-none id none cs h = h
without-none id (some c) cs h =
    get-remove-none id c.connectionid _ (remove_all-none id c.children cs h)

In-remove_all :
    (c : Connection) (ids : List String) (cs : List Connection) → In c (remove_all ids cs) → In c cs
unfolding remove_all
In-remove_all c [] cs m = m
In-remove_all c (i ∷ is) cs m = In-remove c i cs (In-remove_all c is (remove i cs) m)

pub In-without :
    (c : Connection) (found : Option Connection) (cs : List Connection)
    → In c (without found cs)
    → In c cs
unfolding without
In-without c none cs m = m
In-without c (some d) cs m = In-remove_all c d.children cs (In-remove c d.connectionid _ m)

pub without_gone :
    (c : Connection) (cs : List Connection) → C.get c.connectionid (without (some c) cs) ≡ none
unfolding without
without_gone c cs = get-remove c.connectionid (remove_all c.children cs)

get-remove_other :
    (id other : String) (cs : List Connection)
    → str_eq other id ≡ false
    → C.get id (remove other cs) ≡ C.get id cs
unfolding C.get remove
get-remove_other id other [] h = refl
get-remove_other id other (c ∷ cs) h = ground (
  arith,
  eq_iff c.connectionid id,
  eq_iff c.connectionid other,
  eq_iff other id,
  get-remove_other id other cs h,
)

get-remove_all :
    (id : String) (ids : List String) (cs : List Connection)
    → member id ids ≡ false
    → C.get id (remove_all ids cs) ≡ C.get id cs
unfolding remove_all
get-remove_all id [] cs h = refl
get-remove_all id (i ∷ is) cs h =
    get-remove_all id is (remove i cs) (ground arith) ∙ get-remove_other id i cs (ground arith)

pub get-without :
    (id : String) (c : Connection) (cs : List Connection)
    → str_eq c.connectionid id ≡ false
    → member id c.children ≡ false
    → C.get id (without (some c) cs) ≡ C.get id cs
unfolding without
get-without id c cs h n =
    get-remove_other id c.connectionid (remove_all c.children cs) h
    ∙ get-remove_all id c.children cs n

err_eq : {X : Type 0} {x e : Error} → ◌≡◌ {A = Result X} (err x) (err e) → x ≡ e
err_eq h = cc h

module _ (answers : Connection → Result Bool) where
  get-check_one :
      (next : Exec (List Connection) (Unit {0})) (id : String)
      → ((cs : List Connection) → C.get id cs ≡ none → C.get id (next cs).1 ≡ none)
      → (o : Option Connection) (cs : List Connection) → C.get id cs ≡ none
      → C.get id (check_one answers next o cs).1 ≡ none
  unfolding check_one
  get-check_one next id keeps none cs h = h
  get-check_one next id keeps (some c) cs h = elim (Result-cases (answers c)) [
    | inl (alive, e) ↦
        rw (e, check_one)
          (elim (Bool-cases alive) [
            | inl lives ↦ rw lives (keeps cs h)
            | inr dead ↦
                rw dead (keeps (remove c.connectionid cs) (get-remove-none id c.connectionid cs h))
          ])
    | inr (x, e) ↦ rw (e, check_one) h
  ]

  get-check_from :
      (id : String) (fuel i : ℕ) (cs : List Connection)
      → C.get id cs ≡ none
      → C.get id (check_from answers fuel i cs).1 ≡ none
  unfolding check_from
  get-check_from id zero i cs h = h
  get-check_from id (suc fuel) i cs h =
      get-check_one (check_from answers fuel (suc i)) id (get-check_from id fuel (suc i))
        (get_elem? cs i) cs h

  pub get-check_alive :
      (id : String) (cs : List Connection)
      → C.get id cs ≡ none
      → C.get id (check_alive answers cs).1 ≡ none
  unfolding check_alive
  get-check_alive id cs h = get-check_from id (suc (length cs)) zero cs h

  -- An exception is that of a check of one of the connections.
  abbrev pub Escapes : List Connection → Error → Type 0
  Escapes cs e = (c : Connection) × In c cs × (answers c ≡ err e)

  get_elem?-In : (cs : List Connection) (i : ℕ) {c : Connection} → get_elem? cs i ≡ some c → In c cs
  get_elem?-In [] i h = absurd (cc)
  get_elem?-In (d ∷ ds) zero h = inl (cc h)
  get_elem?-In (d ∷ ds) (suc i) h = inr (get_elem?-In ds i h)

  check_one-Escapes :
      (next : Exec (List Connection) (Unit {0})) (e : Error)
      → ((cs : List Connection) → (next cs).0 ≡ err e → Escapes cs e)
      → (o : Option Connection) (cs : List Connection) → ((c : Connection) → o ≡ some c → In c cs)
      → (check_one answers next o cs).0 ≡ err e
      → Escapes cs e
  unfolding check_one
  check_one-Escapes next e go none cs there h = absurd (cc)
  check_one-Escapes next e go (some c) cs there h = elim (Result-cases (answers c)) [
    | inl (alive, a) ↦ elim (Bool-cases alive) [
      | inl lives ↦ go cs (rw (a, lives, check_one) at h)
      | inr dead ↦
          let (d, m, x) = go (remove c.connectionid cs) (rw (a, dead, check_one) at h) in
          (d, In-remove d c.connectionid cs m, x)
    ]
    | inr (x, a) ↦ (c, there c refl, a ∙ ap (λ y. err y) (err_eq (rw (a, check_one) at h)))
  ]

  check_from-Escapes :
      (e : Error) (fuel i : ℕ) (cs : List Connection)
      → (check_from answers fuel i cs).0 ≡ err e
      → Escapes cs e
  unfolding check_from
  check_from-Escapes e zero i cs h = absurd (cc)
  check_from-Escapes e (suc fuel) i cs h =
      check_one-Escapes (check_from answers fuel (suc i)) e (check_from-Escapes e fuel (suc i))
        (get_elem? cs i) cs (λ c. get_elem?-In cs i {c = c}) h

  pub check_alive-Escapes :
      (e : Error) (cs : List Connection) → (check_alive answers cs).0 ≡ err e → Escapes cs e
  unfolding check_alive
  check_alive-Escapes e cs h = check_from-Escapes e (suc (length cs)) zero cs h
