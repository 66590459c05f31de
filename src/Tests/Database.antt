-- ===== src/Tests/Database.antt =====
-- A transaction of two changes on a handle that is refused once.
use lvpn.Prelude.{ℕ, ◌≡◌, refl, Bool, some, List, [], ◌∷◌, map, ◌==◌}
use lvpn.Python.{Result, ok, err, operational_error, db_error}
use lvpn.Database.{new, select, execute, transaction}
use lvpn.Database.Transactions.{Change, written, IsAtomic, transaction-IsAtomic}
use lvpn.Database.Attempts.{reader, attempted, select_attempts}

abbrev push : ℕ → Change (List ℕ)
push n t = ok (tt, n ∷ t)

-- The fifth call is refused: the first try of a statement after `BEGIN`.
abbrev once : ℕ → Bool
once n = n == 4

transaction-IsAtomic_example :
    IsAtomic
      (1 ∷ [])
      (some (3 ∷ 2 ∷ 1 ∷ []))
      (transaction (map written (push 2 ∷ push 3 ∷ [])) (new (1 ∷ []) once 0))
transaction-IsAtomic_example = transaction-IsAtomic once 0 (1 ∷ []) (push 2 ∷ push 3 ∷ [])

-- Both changes are committed.
transaction_example :
    (transaction (map written (push 2 ∷ push 3 ∷ [])) (new (1 ∷ []) once 0)).1.committed
    ≡ 3 ∷ 2 ∷ 1 ∷ []
unfolding transaction execute
transaction_example = refl

abbrev rows : List ℕ → Result (List ℕ × List ℕ)
rows t = ok (t, t)

select_attempts_example :
    select (reader (1 ∷ []) once rows) (new (1 ∷ []) once 1)
    ≡ attempted (1 ∷ []) once (rows (1 ∷ [])) 9 (some 5)
select_attempts_example = select_attempts (1 ∷ []) once rows 1

abbrev broken : List ℕ → Result (List ℕ × List ℕ)
broken t = err operational_error

-- A query with an error of its own is tried five times.
select-broken : (select (reader (1 ∷ []) once broken) (new (1 ∷ []) once 0)).0 ≡ err db_error
unfolding select execute
select-broken = refl
