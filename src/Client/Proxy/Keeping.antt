-- ===== src/Client/Proxy/Keeping.antt =====
-- What holds of the connections when some are taken out still holds when `Proxy.disconnect` ends
-- (client/proxy.py).
use lvpn.Prelude.{
  ℕ, zero, suc, String, inl, inr, Bool, false, Bool-cases, Option, none, some, Option-cases, List,
  [], ◌∷◌, str_eq,
}
use lvpn.Python.{Result, Exec, ok, err, proceed, pure, ◌>>◌}
use lvpn.Vdp.Objects.{is_wg}
use lvpn.Session.World.{Registry}
use lvpn.Client.Connections.{Connection, remove, is_connected, add}
use lvpn.Client.Connections as C
use lvpn.Client.Proxy.{
  Entry, ProxyState, release, drop, disconnect_children, release_found, disconnect_in, disconnect,
}

-- Whatever the connections keep when some are removed, they keep when a call disconnects.
module _ {A : Type 0} (P : List Connection → Type 0)
    (removes : (id : String) (cs : List Connection) → P cs → P (remove id cs)) where
  abbrev pub Keeps : {X : Type 0} → Result X × ProxyState A → Type 0
  Keeps q = P q.1.connections

  pub then-Keeps :
      {X Y : Type 0} (q : Result X × ProxyState A) (f : X → Exec (ProxyState A) Y)
      → Keeps q
      → ((x : X) (v : ProxyState A) → P v.connections → Keeps (f x v))
      → Keeps (proceed q f)
  then-Keeps (ok x, v) f k go = go x v k
  then-Keeps (err e, v) f k go = k

  release-Keeps :
      (reg : Registry A) (c : Connection) (v : ProxyState A)
      → P v.connections
      → Keeps (release reg c v)
  unfolding release
  release-Keeps reg c v k = elim (Option-cases (reg.get_gate c.gateid)) [
    | inl e ↦ rw e k
    | inr (gate, e) ↦ rw e (elim (Bool-cases (is_wg gate.type)) [ inl w ↦ rw w k | inr w ↦ rw w k ])
  ]

  module _ (reg : Registry A) (call : String → Exec (ProxyState A) Bool)
      (calls : (id : String) (v : ProxyState A) → P v.connections → Keeps (call id v)) where
    children-Keeps :
        (ids : List String) (v : ProxyState A)
        → P v.connections
        → Keeps (disconnect_children call ids v)
    unfolding disconnect_children
    children-Keeps [] v k = k
    children-Keeps (i ∷ is) v k =
        then-Keeps (call i v) (λ _. disconnect_children call is) (calls i v k)
          (λ _ w. children-Keeps is w)

    found-Keeps :
        (found : Option Connection) (v : ProxyState A)
        → P v.connections
        → Keeps (release_found reg call found v)
    unfolding release_found
    found-Keeps none v k = k
    found-Keeps (some c) v k =
        then-Keeps (release reg c v) (λ _. disconnect_children call c.children)
          (release-Keeps reg c v k) (λ _ w. children-Keeps c.children w)

    loop-Keeps :
        (id : String) (es : List Entry) (v : ProxyState A)
        → P v.connections
        → Keeps (disconnect_in reg call id es v)
    unfolding disconnect_in drop
    loop-Keeps id [] v k = k
    loop-Keeps id (e ∷ es) v k = elim (Bool-cases (str_eq e.connectionid id)) [
      | inl same ↦ rw same (
          then-Keeps ((release_found reg call (C.get id v.connections) >> drop e) v)
            (λ _. disconnect_in reg call id es)
            (then-Keeps (release_found reg call (C.get id v.connections) v) (λ _. drop e)
              (found-Keeps _ v k) (λ _ w j. removes e.connectionid w.connections j))
            (λ _ w. loop-Keeps id es w))
      | inr differs ↦ rw differs (loop-Keeps id es v k)
    ]

  pub disconnect-Keeps :
      (depth : ℕ) (reg : Registry A) (id : String) (v : ProxyState A)
      → P v.connections
      → Keeps (disconnect depth reg id v)
  unfolding disconnect
  disconnect-Keeps zero reg id v k = k
  disconnect-Keeps (suc depth) reg id v k =
      then-Keeps (disconnect_in reg (disconnect depth reg) id v.processes v) (λ _. pure false)
        (loop-Keeps reg (disconnect depth reg) (disconnect-Keeps depth reg) id v.processes v k)
        (λ _ w j. j)
