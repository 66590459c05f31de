-- ===== src/Client/Proxy/Connecting/Single.antt =====
-- Lists of connections of which no two go to the same space by the same gate (client/connection.py).
use lvpn.Prelude.{
  String, ◌≡◌, refl, ◌&&◌, inl, inr, Bool, false, Bool-cases, List, [], ◌∷◌, ◌++◌, select,
  any-append, str_eq, eq_iff, arith,
}
use lvpn.Client.Connections.{Connection, remove, is_connected}

-- No two of the connections have both their gate and their space in common.
abbrev pub IsSingle : List Connection → Type 0
IsSingle [] = Unit
IsSingle (c ∷ cs) = (is_connected c.gateid c.spaceid cs ≡ false) × IsSingle cs

pub is_connected-select :
    (p : Connection → Bool) (gateid spaceid : String) (cs : List Connection)
    → is_connected gateid spaceid cs ≡ false
    → is_connected gateid spaceid (select p cs) ≡ false
unfolding is_connected
is_connected-select p gateid spaceid [] h = refl
is_connected-select p gateid spaceid (c ∷ cs) h =
    ground (arith, is_connected-select p gateid spaceid cs)

pub IsSingle-select :
    (p : Connection → Bool) (cs : List Connection) → IsSingle cs → IsSingle (select p cs)
IsSingle-select p [] s = tt
IsSingle-select p (c ∷ cs) s = elim (Bool-cases (p c)) [
  | inl stays ↦ rw stays (is_connected-select p c.gateid c.spaceid cs s.0, IsSingle-select p cs s.1)
  | inr goes ↦ rw goes (IsSingle-select p cs s.1)
]

pub IsSingle-append :
    (cs : List Connection) (c : Connection)
    → is_connected c.gateid c.spaceid cs ≡ false
    → IsSingle cs
    → IsSingle (cs ++ c ∷ [])
unfolding is_connected
IsSingle-append [] c h s = (refl, tt)
IsSingle-append (d ∷ ds) c h s = (
  ground (
    arith,
    s.0,
    any-append (λ e. str_eq e.gateid d.gateid && str_eq e.spaceid d.spaceid) ds (c ∷ []),
    eq_iff c.gateid d.gateid,
    eq_iff c.spaceid d.spaceid,
    eq_iff d.gateid c.gateid,
    eq_iff d.spaceid c.spaceid,
  ),
  IsSingle-append ds c (ground arith) s.1,
)

abbrev pub Joins : String → String → List Connection → Type 0
Joins gateid spaceid cs = IsSingle cs × (is_connected gateid spaceid cs ≡ false)

pub Joins-remove :
    (gateid spaceid id : String) (cs : List Connection)
    → Joins gateid spaceid cs
    → Joins gateid spaceid (remove id cs)
unfolding remove
Joins-remove gateid spaceid id cs j =
    (IsSingle-select _ cs j.0, is_connected-select _ gateid spaceid cs j.1)
