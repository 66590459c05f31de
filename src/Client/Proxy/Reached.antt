-- ===== src/Client/Proxy/Reached.antt =====
-- The connections that `Proxy.disconnect` may reach from one (client/proxy.py), and lists of
-- connections of which no others are missing.
use lvpn.Prelude.{
  true≢false, String, ◌≡◌, refl, ap, sym, subst, ◌∙◌, ◌⊎◌, inl, inr, Bool, true, false, Bool-cases,
  none, some, find, List, [], ◌∷◌, not, ◌&&◌, select, str_eq, eq_iff, arith, if◌then◌else◌,
}
use lvpn.Prelude.Dict.{member}
use lvpn.Client.Connections.{Connection, remove}
use lvpn.Client.Connections as C

pub some-injective : {X : Type 0} {x y : X} → some x ≡ some y → x ≡ y
some-injective h = cc

not-false : (b : Bool) → not b ≡ false → b ≡ true
not-false true h = refl
not-false false h = cc

abbrev pub In : Connection → List Connection → Type 0
In c [] = ⊥
In c (d ∷ ds) = (c ≡ d) ⊎ In c ds

module _ (p : Connection → Bool) where
  pub In-select :
      (c : Connection) (cs : List Connection) → In c (select p cs) → In c cs × (p c ≡ true)
  In-select c (d ∷ ds) m = split (In-select c ds) (p d) refl m
    where
      split :
          (In c (select p ds) → In c ds × (p c ≡ true))
          → (b : Bool) → p d ≡ b
          → In c (if b then d ∷ select p ds else select p ds)
          → In c (d ∷ ds) × (p c ≡ true)
      split ih true e (inl same) = (inl same, ap p same ∙ e)
      split ih true e (inr k) = (inr (ih k).0, (ih k).1)
      split ih false e k = (inr (ih k).0, (ih k).1)
  In-select c [] m = absurd m

  pub select-In :
      (c : Connection) (cs : List Connection) → In c cs → p c ≡ true → In c (select p cs)
  select-In c (d ∷ ds) (inl e) h = rw (sym (ap p e) ∙ h) (inl e)
  select-In c (d ∷ ds) (inr m) h = elim (Bool-cases (p d)) [
    | inl stays ↦ rw stays (inr (select-In c ds m h))
    | inr goes ↦ rw goes (select-In c ds m h)
  ]
  select-In c [] m h = m

select-select :
    (p q : Connection → Bool) (cs : List Connection)
    → select q (select p cs) ≡ select (λ c. p c && q c) cs
select-select p q [] = refl
select-select p q (c ∷ cs) = ground (arith, select-select p q cs)

select_all : (cs : List Connection) → select (λ _. true) cs ≡ cs
select_all [] = refl
select_all (c ∷ cs) = rw (select_all cs)

-- What `disconnect` may reach: the connection itself, and the children of what it reaches.
pub data Under (conns : List Connection) (id : String) : String → Type 0 where
  here : Under conns id id
  child :
      {i j : String} (c : Connection)
      → Under conns id i
      → In c conns
      → c.connectionid ≡ i
      → member j c.children ≡ true
      → Under conns id j

pub Under-trans :
    {conns : List Connection} {a b : String} {c : String}
    → Under conns a b
    → Under conns b c
    → Under conns a c
Under-trans u here = u
Under-trans u (child c v m e k) = child c (Under-trans u v) m e k

-- Some connections are left, and those that are not are under the one with the id.
pub record Kept (conns : List Connection) (id : String) (after : List Connection) : Type 0 where
  pub kept : Connection → Bool
  pub left : after ≡ select kept conns
  pub below : (c : Connection) → In c conns → kept c ≡ false → Under conns id c.connectionid

pub Under-select :
    (p : Connection → Bool) {conns : List Connection} {a b : String}
    → Under (select p conns) a b
    → Under conns a b
Under-select p here = here
Under-select p {conns} (child c u m e k) = child c (Under-select p u) (In-select p c conns m).0 e k

pub Kept-refl : (conns : List Connection) (id : String) → Kept conns id conns
Kept-refl conns id = record {
  kept = λ _. true;
  left = sym (select_all conns);
  below = λ c m h. absurd (true≢false h);
}

-- What a later call takes out is under the id for which it was called.
pub Kept-extend :
    {cs ds es : List Connection} {id j : String}
    → Kept cs id ds
    → Under cs id j
    → Kept ds j es
    → Kept cs id es
Kept-extend {cs} {ds} {es} {id} {j} k u l = record {
  kept = λ c. k.kept c && l.kept c;
  left = l.left ∙ ap (select l.kept) k.left ∙ select-select k.kept l.kept cs;
  below = λ c m h. elim (Bool-cases (k.kept c)) [
    | inl stays ↦ Under-trans u (
        Under-select k.kept (
          subst (λ xs. Under xs j c.connectionid) k.left
            (l.below c (subst (In c) (sym k.left) (select-In k.kept c cs m stays))
              (rw stays at h))))
    | inr goes ↦ k.below c m goes
  ];
}

pub Kept-In :
    {cs ds : List Connection} {id : String} → Kept cs id ds → (c : Connection) → In c ds → In c cs
Kept-In {cs} k c m = (In-select k.kept c cs (subst (In c) k.left m)).0

pub Kept-remove : (conns : List Connection) (id : String) → Kept conns id (remove id conns)
unfolding remove
Kept-remove conns id = record {
  kept = λ c. not (str_eq c.connectionid id);
  left = refl;
  below = λ c m h. subst (Under conns id) (sym ((eq_iff c.connectionid id).0 (not-false _ h))) here;
}

pub get-remove : (id : String) (cs : List Connection) → C.get id (remove id cs) ≡ none
unfolding C.get remove
get-remove id [] = refl
get-remove id (c ∷ cs) = ground (arith, get-remove id cs)

pub get-remove-none :
    (id other : String) (cs : List Connection)
    → C.get id cs ≡ none
    → C.get id (remove other cs) ≡ none
unfolding C.get remove
get-remove-none id other [] h = refl
get-remove-none id other (c ∷ cs) h = ground (arith, get-remove-none id other cs)

pub In-remove :
    (c : Connection) (id : String) (cs : List Connection) → In c (remove id cs) → In c cs
unfolding remove
In-remove c id cs m = (In-select _ c cs m).0

pub find-In :
    (p : Connection → Bool) (cs : List Connection) {c : Connection}
    → find p cs ≡ some c
    → In c cs × (p c ≡ true)
find-In p [] h = absurd (cc)
find-In p (d ∷ ds) {c} h = elim (Bool-cases (p d)) [
  | inl found ↦
      (let e : d ≡ c = some-injective (rw found at h) in (inl (sym e), ap p (sym e) ∙ found))
  | inr other ↦ (let (m, q) = find-In p ds (rw other at h) in (inr m, q))
]

-- The connection that is found has the id.
pub get-In :
    (id : String) (cs : List Connection) {c : Connection}
    → C.get id cs ≡ some c
    → In c cs × (c.connectionid ≡ id)
unfolding C.get
get-In id cs {c} h =
    let (m, t) = find-In (λ c. str_eq c.connectionid id) cs h in (m, (eq_iff c.connectionid id).0 t)
