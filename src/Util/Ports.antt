-- ===== src/Util/Ports.antt =====
-- The search for a free port (find_random_free_port of lib/util.py).
use lvpn.Prelude.{
  ℕ, zero, suc, ◌+◌, ◌-◌, ◌%◌, ◌≤◌, ◌<◌, ◌≡◌, sym, ◌⊎◌, inl, inr, Bool, true, false, Option, none,
  some, Bool-cases, arith, if◌then◌else◌,
}

-- `draws n` is the nth result of `random.randint`, as a distance from the lower bound before it is
-- reduced to the range; `binds n port` whether the socket can then be bound to the port.
le_cases : (i k : ℕ) → i ≤ k → (i ≡ k) ⊎ (suc i ≤ k)
le_cases i k l = ground arith

module _ (draws : ℕ → ℕ) (binds : ℕ → ℕ → Bool) (from to : ℕ) where
  -- `random.randint(from_, to_)`, both bounds included
  drawn : ℕ → ℕ
  drawn i = from + draws i % suc (to - from)

  -- `fuel` are the attempts that are left of `max_iters`, `i` those that failed.
  pub attempt_port : ℕ → ℕ → Option ℕ
  unfolding drawn
  attempt_port zero i = none
  attempt_port (suc fuel) i =
      let next = attempt_port fuel (suc i) in if binds i (drawn i) then some (drawn i) else next

  unfoldable pub find_random_free_port : ℕ → Option ℕ
  unfolding attempt_port
  find_random_free_port max_iters = attempt_port max_iters 0

  -- The attempts from `i` on that stand before `j` have failed.
  Failed : ℕ → ℕ → Type 0
  unfolding drawn
  Failed i j = (k : ℕ) → i ≤ k → k < j → binds k (drawn k) ≡ false

  -- What the search says with a port, which the first attempt that succeeds has bound, and with none.
  pub Searched : ℕ → ℕ → Option ℕ → Type 0
  unfolding Failed
  Searched fuel i none = Failed i (fuel + i)
  Searched fuel i (some port) =
      (from ≤ port)
      × (port ≤ to)
      × ((j : ℕ) × (i ≤ j) × (j < fuel + i) × (binds j port ≡ true) × Failed i j)

  Failed-earlier : (i j : ℕ) → binds i (drawn i) ≡ false → Failed (suc i) j → Failed i j
  unfolding Failed
  Failed-earlier i j b h k l u = elim (le_cases i k l) [ inl e ↦ rw (sym e) b | inr m ↦ h k m u ]

  -- A failed attempt comes before what the rest of the search says.
  Searched-earlier :
      (fuel i : ℕ) (found : Option ℕ)
      → binds i (drawn i) ≡ false
      → Searched fuel (suc i) found
      → Searched (suc fuel) i found
  unfolding Searched Failed
  Searched-earlier fuel i none b h =
      Failed-earlier i (suc fuel + i) b λ k l u. h k l (omega (arith, u))
  Searched-earlier fuel i (some port) b (lo, hi, (j, l, u, got, before)) =
      (lo, hi, (j, omega (arith, l), omega (arith, u), got, Failed-earlier i j b before))

  Searched-first :
      (fuel i : ℕ) → from ≤ to → binds i (drawn i) ≡ true → Searched (suc fuel) i (some (drawn i))
  unfolding Searched Failed drawn
  Searched-first fuel i h b = (
    omega arith,
    omega (arith, h),
    (i, omega arith, omega arith, b, λ k l u. absurd (omega (arith, l, u))),
  )

  attempt_port-Searched : (fuel i : ℕ) → from ≤ to → Searched fuel i (attempt_port fuel i)
  unfolding attempt_port Searched Failed
  attempt_port-Searched zero i h = λ k l u. absurd (omega (arith, l, u))
  attempt_port-Searched (suc fuel) i h = elim (Bool-cases (binds i (drawn i))) [
    | inl b ↦ rw b (Searched-first fuel i h b)
    | inr b ↦ rw b (
        Searched-earlier fuel i (attempt_port fuel (suc i)) b
          (attempt_port-Searched fuel (suc i) h))
  ]

  -- A port that the search returns lies in the range, both ends included, and was bound by the first
  -- attempt that succeeded, which is one of the allowed ones; if it returns none, each of the allowed
  -- attempts has failed. The range must not be empty.
  pub find_random_free_port-Searched :
      (max_iters : ℕ) → from ≤ to → Searched max_iters 0 (find_random_free_port max_iters)
  unfolding find_random_free_port
  find_random_free_port-Searched max_iters h = attempt_port-Searched max_iters 0 h
