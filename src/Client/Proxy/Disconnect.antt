-- ===== src/Client/Proxy/Disconnect.antt =====
-- What `Proxy.disconnect` takes out, and that it ends (client/proxy.py).
use lvpn.Prelude.{
  or_true, ℕ, zero, suc, ◌<◌, String, ◌≡◌, ◌≢◌, refl, ap, ◌∙◌, inl, inr, Bool, true, false,
  Bool-cases, Option, none, some, Option-cases, List, [], ◌∷◌, str_eq, eq_iff, eq_refl, arith,
}
use lvpn.Prelude.Dict.{member}
use lvpn.Python.{
  Result, Error, Exec, ok, err, proceed, proceed-ne-err, lift, or_raise, type_error, ◌>>◌, pure,
  recursion_error,
}
use lvpn.Vdp.Objects.{Gate, is_wg, gate_id}
use lvpn.Session.World.{World, Registry}
use lvpn.Wireguard.Engine.{get_interface_name}
use lvpn.Wireguard.Engine.Errors.{get_interface_name_err, engine_remove_peer_err}
use lvpn.Client.Connections.{Connection, remove}
use lvpn.Client.Connections as C
use lvpn.Client.Proxy.{
  Entry, ProxyState, in_world, deactivate_on_client, release, drop, disconnect_children,
  release_found, disconnect_in, disconnect,
}
use lvpn.Client.Proxy.Reached.{
  In, Under, here, child, Kept, Kept-refl, Kept-extend, Kept-In, Kept-remove, get-In,
}

-- Children have lower ranks, so that there are no circles.
abbrev pub IsRanked : (String → ℕ) → List Connection → Type 0
IsRanked rank conns =
    (c : Connection)
    → In c conns
    → (j : String) → member j c.children ≡ true
    → rank j < rank c.connectionid

-- How a call goes that started with these connections and processes, for a connection's id.
pub record Goes {A X : Type 0} (conns : List Connection) (processes : List Entry) (id : String)
    (q : Result X × ProxyState A) : Type 0 where
  pub kept : Kept conns id q.1.connections
  pub same : q.1.processes ≡ processes
  pub ends : q.0 ≢ err recursion_error

module _ {A : Type 0} (conns : List Connection) (processes : List Entry) (id : String) where
  then-Goes :
      {X Y : Type 0} (q : Result X × ProxyState A) (f : X → Exec (ProxyState A) Y)
      → Goes conns processes id q
      → ((x : X) (v : ProxyState A)
          → Kept conns id v.connections
          → v.processes ≡ processes
          → Goes conns processes id (f x v))
      → Goes conns processes id (proceed q f)
  then-Goes (ok x, v) f g go = go x v g.kept g.same
  then-Goes (err e, v) f g go = record { kept = g.kept; same = g.same; ends = λ h. g.ends (cc) }

  ok-Goes :
      {X : Type 0} (x : X) (v : ProxyState A)
      → Kept conns id v.connections
      → v.processes ≡ processes
      → Goes conns processes id (ok x, v)
  ok-Goes x v k p = record { kept = k; same = p; ends = λ h. cc }

  in_world-Goes :
      {X : Type 0} (m : Exec (World A) X) (v : ProxyState A)
      → ((w : World A) → (m w).0 ≢ err recursion_error)
      → Kept conns id v.connections
      → v.processes ≡ processes
      → Goes conns processes id (in_world m v)
  in_world-Goes m v n k p = record { kept = k; same = p; ends = n v.world }

or_raise_ends :
    {S X : Type 0} (o : Option X) (e : Error) (s : S)
    → e ≢ recursion_error
    → (or_raise o e s).0 ≢ err recursion_error
or_raise_ends none e s n h = n (cc)
or_raise_ends (some x) e s n h = cc

deactivate_ends :
    {A : Type 0} (reg : Registry A) (gate : Gate A) (w : World A)
    → (deactivate_on_client reg gate w).0 ≢ err recursion_error
unfolding deactivate_on_client
deactivate_ends reg gate w =
    proceed-ne-err recursion_error (lift (get_interface_name reg (gate_id gate)) w) _
      (λ h. cc (get_interface_name_err reg (gate_id gate) h))
      (λ iface v.
        proceed-ne-err recursion_error (or_raise gate.wg_data type_error v) _
          (or_raise_ends gate.wg_data type_error v (λ h. cc))
          (λ own u h. cc (engine_remove_peer_err reg iface own.public_key u h)))

release-Goes :
    {A : Type 0} (conns : List Connection) (processes : List Entry) (id : String) (reg : Registry A)
    (c : Connection) (v : ProxyState A)
    → Kept conns id v.connections
    → v.processes ≡ processes
    → Goes conns processes id (release reg c v)
unfolding release
release-Goes conns processes id reg c v k p = elim (Option-cases (reg.get_gate c.gateid)) [
  | inl e ↦ rw e (record { kept = k; same = p; ends = λ h. cc })
  | inr (gate, e) ↦ rw e (elim (Bool-cases (is_wg gate.type)) [
    | inl w ↦ rw w (
        in_world-Goes conns processes id (deactivate_on_client reg gate) v
          (deactivate_ends reg gate) k p)
    | inr w ↦ rw w (ok-Goes conns processes id tt v k p)
  ])
]

module _ {A : Type 0} (rank : String → ℕ) where
  -- How a call behaves for the ids below a rank.
  abbrev Calls : ℕ → (String → Exec (ProxyState A) Bool) → Type 0
  Calls bound call =
      (j : String) (v : ProxyState A)
      → IsRanked rank v.connections
      → rank j < bound
      → Goes v.connections v.processes j (call j v)

  module _ (conns : List Connection) (processes : List Entry) (id : String)
      (ranked : IsRanked rank conns) where
    later-IsRanked : (v : ProxyState A) → Kept conns id v.connections → IsRanked rank v.connections
    later-IsRanked v k c m = ranked c (Kept-In k c m)

    call-Goes :
        {bound : ℕ} (call : String → Exec (ProxyState A) Bool) (j : String) (v : ProxyState A)
        → Calls bound call
        → Kept conns id v.connections
        → v.processes ≡ processes
        → Under conns id j
        → rank j < bound
        → Goes conns processes id (call j v)
    call-Goes call j v calls k p u lt =
        let g = calls j v (later-IsRanked v k) lt in
        record { kept = Kept-extend k u g.kept; same = g.same ∙ p; ends = g.ends }

    children-Goes :
        {bound : ℕ} (call : String → Exec (ProxyState A) Bool) (ids : List String)
        (v : ProxyState A)
        → Calls bound call
        → Kept conns id v.connections
        → v.processes ≡ processes
        → ((j : String) → member j ids ≡ true → Under conns id j × (rank j < bound))
        → Goes conns processes id (disconnect_children call ids v)
    unfolding disconnect_children
    children-Goes call [] v calls k p below = ok-Goes conns processes id tt v k p
    children-Goes call (i ∷ is) v calls k p below =
        let (u, lt) = below i (rw (eq_refl i)) in
        then-Goes conns processes id (call i v) (λ _. disconnect_children call is)
          (call-Goes call i v calls k p u lt)
          (λ _ w l q.
            children-Goes call is w calls l q (λ j m. below j (rw m (or_true (str_eq i j)))))

    module _ (reg : Registry A) (depth : ℕ) (call : String → Exec (ProxyState A) Bool)
        (calls : Calls depth call) (deep : rank id < suc depth) where
      found-Goes :
          (v : ProxyState A)
          → Kept conns id v.connections
          → v.processes ≡ processes
          → Goes conns processes id (release_found reg call (C.get id v.connections) v)
      unfolding release_found
      found-Goes v k p = elim (Option-cases (C.get id v.connections)) [
        | inl missing ↦ rw missing (ok-Goes conns processes id tt v k p)
        | inr (c, e) ↦ rw e (
            let (m, same) = get-In id v.connections e in
            then-Goes conns processes id (release reg c v)
              (λ _. disconnect_children call c.children)
              (release-Goes conns processes id reg c v k p)
              (λ _ w l q. children-Goes call c.children w calls l q (λ j n. (
                child c here (Kept-In k c m) same n,
                omega (arith, ranked c (Kept-In k c m) j n, ap rank same),
              ))))
      ]

      drop-Goes :
          (e : Entry) (v : ProxyState A)
          → e.connectionid ≡ id
          → Kept conns id v.connections
          → v.processes ≡ processes
          → Goes conns processes id (drop e v)
      unfolding drop
      drop-Goes e v same k p = record {
        kept = rw same (Kept-extend k here (Kept-remove v.connections id));
        same = p;
        ends = λ h. cc;
      }

      loop-Goes :
          (es : List Entry) (v : ProxyState A)
          → Kept conns id v.connections
          → v.processes ≡ processes
          → Goes conns processes id (disconnect_in reg call id es v)
      unfolding disconnect_in
      loop-Goes [] v k p = ok-Goes conns processes id tt v k p
      loop-Goes (e ∷ es) v k p = elim (Bool-cases (str_eq e.connectionid id)) [
        | inl same ↦ rw same (
            then-Goes conns processes id
              ((release_found reg call (C.get id v.connections) >> drop e) v)
              (λ _. disconnect_in reg call id es)
              (then-Goes conns processes id (release_found reg call (C.get id v.connections) v)
                (λ _. drop e) (found-Goes v k p)
                (λ _ w l q. drop-Goes e w ((eq_iff e.connectionid id).0 same) l q))
              (λ _ w l q. loop-Goes es w l q))
        | inr other ↦ rw other (loop-Goes es v k p)
      ]

  disconnect-Calls : (depth : ℕ) (reg : Registry A) → Calls depth (disconnect depth reg)
  unfolding disconnect
  disconnect-Calls zero reg id s ranked lt = absurd (omega (arith, lt))
  disconnect-Calls (suc depth) reg id s ranked lt =
      then-Goes s.connections s.processes id
        (disconnect_in reg (disconnect depth reg) id s.processes s) (λ _. pure false)
        (loop-Goes s.connections s.processes id ranked reg depth (disconnect depth reg)
          (disconnect-Calls depth reg) lt s.processes s (Kept-refl s.connections id) refl)
        (λ _ v k p. ok-Goes s.connections s.processes id false v k p)

  -- Where the children of every connection have lower ranks, and the limit on recursion is above the
  -- rank of the connection, `disconnect` does not reach the limit, whether it returns or raises. It
  -- changes no process, and of the connections it takes out only the one with the id and those that
  -- are reached from it through children.
  pub disconnect-Goes :
      (depth : ℕ) (reg : Registry A) (id : String) (s : ProxyState A)
      → IsRanked rank s.connections
      → rank id < depth
      → Goes s.connections s.processes id (disconnect depth reg id s)
  disconnect-Goes depth reg id s ranked lt = disconnect-Calls depth reg id s ranked lt
