-- ===== src/Database/Transactions.antt =====
-- What a transaction of the program leaves in the database (lib/db.py).
use lvpn.Prelude.{
  ℕ, zero, suc, ◌+◌, ◌≡◌, refl, Bool, true, false, Bool-cases, Option, none, some, List, [], ◌∷◌,
  inl, inr, map,
}
use lvpn.Python.{Result, Exec, ok, err, proceed, proceed-proceed, Result-cases, ◌>>◌}
use lvpn.Database.{
  Handle, Statement, write, new, close, begin, commit, is_operational, finish, attempt, execute,
  execute_all, transaction,
}

-- A change of the tables, which a constraint may refuse.
abbrev pub Change : Type 0 → Type 0
Change T = T → Result (Unit {0} × T)

module _ {T : Type 0} where
  abbrev pub written : Change T → Statement T (Unit {0})
  written f = record { kind = write; run = f }

  -- The changes one after the other; none, if one of them is refused.
  abbrev pub apply_all : List (Change T) → T → Option T
  apply_all [] t = some t
  apply_all (f ∷ fs) t = elim (f t) [ ok p ↦ apply_all fs p.1 | err e ↦ none ]

  -- How a whole transaction ends.
  abbrev pub IsAtomic : T → Option T → Result (Unit {0}) × Handle T → Type 0
  IsAtomic t result (ok _, h) = (result ≡ some h.committed) × (h.closed ≡ true) × (h.pending ≡ none)
  IsAtomic t result (err _, h) = h.committed ≡ t

  module _ (busy : ℕ → Bool) (t : T) where
    -- Inside a transaction.
    abbrev within : T → ℕ → Handle T
    within seen calls = record {
      closed = false;
      in_transaction = true;
      committed = t;
      pending = some seen;
      busy = busy;
      calls = calls;
    }

    -- How one statement inside a transaction ends.
    abbrev Executed : T → Change T → Result (Unit {0}) × Handle T → Type 0
    Executed seen f (ok _, h) = (p : Unit {0} × T) × (n : ℕ) × (f seen ≡ ok p) × (h ≡ within p.1 n)
    Executed seen f (err _, h) = h.committed ≡ t

    module _ (f : Change T) (seen : T) where
      finish-Executed :
          (again : Exec (Handle T) (Unit {0})) (n : ℕ)
          → Executed seen f (again (within seen n))
          → Executed seen f (finish true (written f) again (f seen) (within seen n))
      unfolding finish
      finish-Executed again n h = elim (Result-cases (f seen)) [
        | inl (p, e) ↦ rw e (p, n, e, refl)
        | inr (x, e) ↦ elim (Bool-cases (is_operational x)) [
          | inl caught ↦ rw (e, caught) h
          | inr other ↦ rw (e, other) refl
        ]
      ]

      attempt-Executed :
          (tries n : ℕ) → Executed seen f (attempt tries true (written f) (within seen n))
      unfolding attempt
      attempt-Executed zero n = refl
      attempt-Executed (suc tries) n = elim (Bool-cases (busy n)) [
        | inl refused ↦ rw refused (attempt-Executed tries (n + 1))
        | inr ready ↦ rw ready (
            finish-Executed (attempt tries true (written f)) (n + 1)
              (attempt-Executed tries (n + 1)))
      ]

      execute-Executed : (n : ℕ) → Executed seen f (execute true (written f) (within seen n))
      unfolding execute
      execute-Executed n = attempt-Executed 5 n

    commit_lem : (seen : T) (n : ℕ) → IsAtomic t (some seen) ((commit >> close) (within seen n))
    unfolding commit
    commit_lem seen n = elim (Bool-cases (busy n)) [
      | inl refused ↦ rw refused refl
      | inr ready ↦ rw ready (refl, refl, refl)
    ]

    -- What follows a statement is run from where the statement left the handle.
    proceed-IsAtomic :
        (f : Change T) (fs : List (Change T)) (seen : T) (rest : Exec (Handle T) (Unit {0}))
        → ((next : T) (n : ℕ) → IsAtomic t (apply_all fs next) (rest (within next n)))
        → (r : Result (Unit {0}) × Handle T) → Executed seen f r
        → IsAtomic t (apply_all (f ∷ fs) seen) (proceed r (λ _. rest))
    proceed-IsAtomic f fs seen rest go (err e, h) x = x
    proceed-IsAtomic f fs seen rest go (ok u, h) (p, n, e, w) = rw (e, w) (go p.1 n)

    statements_lem :
        (fs : List (Change T)) (seen : T) (n : ℕ)
        → IsAtomic t
            (apply_all fs seen)
            ((execute_all (map written fs) >> (commit >> close)) (within seen n))
    unfolding execute_all
    statements_lem [] seen n = commit_lem seen n
    statements_lem (f ∷ fs) seen n =
        rw
          (proceed-proceed (execute true (written f) (within seen n))
            (λ _. execute_all (map written fs)) (λ _. commit >> close))
          (proceed-IsAtomic f fs seen (execute_all (map written fs) >> (commit >> close))
            (statements_lem fs) (execute true (written f) (within seen n))
            (execute-Executed f seen n))

  -- A transaction on a new handle, whichever calls `sqlite3` refuses: if it returns, every change
  -- was made, in order, and is committed, and the handle is closed and has no transaction; if it
  -- raises, what is committed is what was committed before.
  pub transaction-IsAtomic :
      (busy : ℕ → Bool) (n : ℕ) (t : T) (fs : List (Change T))
      → IsAtomic t (apply_all fs t) (transaction (map written fs) (new t busy n))
  unfolding transaction begin
  transaction-IsAtomic busy n t fs = elim (Bool-cases (busy n)) [
    | inl refused ↦ rw refused refl
    | inr connects ↦ rw connects (elim (Bool-cases (busy (n + 1))) [
      | inl refused ↦ rw refused refl
      | inr has_cursor ↦ rw has_cursor (elim (Bool-cases (busy (n + 1 + 1))) [
        | inl refused ↦ rw refused refl
        | inr opened ↦ rw opened (elim (Bool-cases (busy (n + 1 + 1 + 1))) [
          | inl refused ↦ rw refused refl
          | inr free ↦ rw free (statements_lem busy t fs t (n + 1 + 1 + 1 + 1))
        ])
      ])
    ])
  ]
