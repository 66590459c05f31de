-- ===== src/Python.antt =====
-- Python calls as the program makes them: a call returns a value or raises, and what it wrote
-- before it raised stays written. (lib/service.py ServiceException, lib/vdpobject.py VDPException,
-- lib/db.py DBException, lib/mngrrpc.py ManagerException, and Python's own exceptions.)
use lvpn.Prelude.Int.{ℤ}
use lvpn.Prelude.{ℕ, ◌≡◌, ◌⊎◌, inl, inr, refl, Bool, true, false, Option, none, some}

-- What a `VDPException` complains of.
pub data VdpFault : Type 0 where
  unknown_gate unknown_space unknown_provider missing_days bad_file bad_type : VdpFault
  bad_schema missing_provider missing_space stale_session : VdpFault

pub data Error : Type 0 where
  type_error key_error attribute_error value_error index_error : Error
  process_error db_error integrity_error operational_error programming_error : Error
  manager_error proxy_error system_exit recursion_error : Error
  -- `OSError`, as when a socket is refused
  os_error : Error
  -- `raise Exception(...)`
  plain_error : Error
  vdp_error : VdpFault → Error
  service_error : ℕ → Error
  wallet_error : ℤ → Error

pub data Result {ℓ} (A : Type ℓ) : Type ℓ where
  ok : A → Result A
  err : Error → Result A

pub Result-cases :
    {A : Type 0} (r : Result A) → ((a : A) × (r ≡ ok a)) ⊎ ((e : Error) × (r ≡ err e))
Result-cases (ok a) = inl (a, refl)
Result-cases (err e) = inr (e, refl)

abbrev pub Exec : Type 0 → Type 0 → Type 0
Exec S A = S → Result A × S

module _ {S A : Type 0} where
  abbrev pub pure : A → Exec S A
  pure a s = (ok a, s)

  abbrev pub raise : Error → Exec S A
  raise e s = (err e, s)

  abbrev pub lift : Result A → Exec S A
  lift r s = (r, s)

  abbrev pub gets : (S → A) → Exec S A
  gets f s = (ok (f s), s)

  -- `d[key]`, an attribute or an unpacking that may fail.
  abbrev pub or_raise : Option A → Error → Exec S A
  or_raise none e = raise e
  or_raise (some a) _ = pure a

abbrev pub modify : {S : Type 0} → (S → S) → Exec S (Unit {0})
modify f s = (ok tt, f s)

-- How a call goes on from what an earlier one returned.
abbrev pub proceed : {S A B : Type 0} → Result A × S → (A → Exec S B) → Result B × S
proceed (ok a, s) f = f a s
proceed (err e, s) f = (err e, s)

pub proceed-proceed :
    {S A B C : Type 0} (r : Result A × S) (f : A → Exec S B) (g : B → Exec S C)
    → proceed (proceed r f) g ≡ proceed r (λ a s. proceed (f a s) g)
proceed-proceed (ok a, s) f g = refl
proceed-proceed (err e, s) f g = refl

-- A chain raises no more than its parts do.
pub proceed-ne-err :
    {S A B : Type 0} (e : Error) (r : Result A × S) (f : A → Exec S B)
    → (r.0 ≡ err e → ⊥)
    → ((a : A) (s : S) → (f a s).0 ≡ err e → ⊥)
    → (proceed r f).0 ≡ err e
    → ⊥
proceed-ne-err e (ok a, s) f n m h = m a s h
proceed-ne-err e (err x, s) f n m h = n (cc)

infixl 10 ◌>>=◌ ◌>>◌
abbrev pub ◌>>=◌ : {S A B : Type 0} → Exec S A → (A → Exec S B) → Exec S B
◌>>=◌ m f s = proceed (m s) f

abbrev pub ◌>>◌ : {S A B : Type 0} → Exec S A → Exec S B → Exec S B
m >> k = m >>= λ _. k

-- `if c: ...`, with nothing to do otherwise.
abbrev pub when : {S : Type 0} → Bool → Exec S (Unit {0}) → Exec S (Unit {0})
when true m = m
when false m = pure tt

-- `raise` unless a call outside the program went well.
abbrev pub raise_unless : {S : Type 0} → Bool → Error → Exec S (Unit {0})
raise_unless true e = pure tt
raise_unless false e = raise e

-- The same chain where nothing is written.
module _ {A B : Type 0} where
  abbrev pub and_then : Result A → (A → Result B) → Result B
  and_then (ok a) f = f a
  and_then (err e) f = err e

-- A chain that succeeds has succeeded in each of its steps.
pub and_then-eq-ok :
    {A B : Type 0} (r : Result A) (f : A → Result B) {b : B}
    → and_then r f ≡ ok b
    → (a : A) × (r ≡ ok a) × (f a ≡ ok b)
and_then-eq-ok (ok a) f h = (a, refl, h)
and_then-eq-ok (err e) f h = cc

pub ok-injective : {A : Type 0} {a b : A} → ok a ≡ ok b → a ≡ b
ok-injective h = cc

-- What a call returns, if it returns, has the property.
module _ {S : Type 0} where
  abbrev pub Returns : {A : Type 0} → (A → Type 0) → Result A × S → Type 0
  Returns P (ok a, _) = P a
  Returns P (err _, _) = Unit

  pub Returns-proceed :
      {A B : Type 0} (P : B → Type 0) (r : Result A × S) (f : A → Exec S B)
      → ((a : A) (v : S) → r ≡ (ok a, v) → Returns P (f a v))
      → Returns P (proceed r f)
  Returns-proceed P (ok a, v) f h = h a v refl
  Returns-proceed P (err e, v) f h = tt

  pub Returns-map :
      {A : Type 0} (P Q : A → Type 0) (r : Result A × S)
      → ((a : A) → P a → Q a)
      → Returns P r
      → Returns Q r
  Returns-map P Q (ok a, v) f h = f a h
  Returns-map P Q (err e, v) f h = tt

-- What a call leaves behind, if it returns.
module _ {S : Type 0} where
  abbrev pub Leaves : {A : Type 0} → (A → S → Type 0) → Result A × S → Type 0
  Leaves P (ok a, v) = P a v
  Leaves P (err _, _) = Unit

  pub Leaves-proceed :
      {A B : Type 0} (P : B → S → Type 0) (r : Result A × S) (f : A → Exec S B)
      → ((a : A) (v : S) → r ≡ (ok a, v) → Leaves P (f a v))
      → Leaves P (proceed r f)
  Leaves-proceed P (ok a, v) f h = h a v refl
  Leaves-proceed P (err e, v) f h = tt

  pub Leaves-weaken :
      {A : Type 0} (P Q : A → S → Type 0) (r : Result A × S)
      → ((a : A) (v : S) → P a v → Q a v)
      → Leaves P r
      → Leaves Q r
  Leaves-weaken P Q (ok a, v) f h = f a v h
  Leaves-weaken P Q (err e, v) f h = tt
