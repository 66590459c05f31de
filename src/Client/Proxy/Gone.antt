-- ===== src/Client/Proxy/Gone.antt =====
-- After `Proxy.disconnect` the connection is gone (client/proxy.py).
use lvpn.Prelude.{
  ℕ, zero, suc, String, ◌≡◌, refl, inl, inr, Bool, true, false, Bool-cases, none, List, [], ◌∷◌,
  any, str_eq, eq_iff,
}
use lvpn.Python.{Result, Exec, ok, err, proceed, pure, ◌>>◌}
use lvpn.Session.World.{Registry}
use lvpn.Client.Connections.{Connection, remove}
use lvpn.Client.Connections as C
use lvpn.Client.Proxy.Reached.{get-remove}
use lvpn.Client.Proxy.{Entry, ProxyState, drop, release_found, disconnect_in, disconnect}

module _ {A : Type 0} (id : String) where
  abbrev pub IsGone : ProxyState A → Type 0
  IsGone s = (C.get id s.connections ≡ none) × (s.published ≡ s.connections)

  -- A call that returns leaves the connection gone.
  abbrev pub LeavesGone : {X : Type 0} → Result X × ProxyState A → Type 0
  LeavesGone (ok _, s) = IsGone s
  LeavesGone (err _, s) = Unit

  then_gone :
      {X Y : Type 0} (q : Result X × ProxyState A) (f : X → Exec (ProxyState A) Y)
      → ((x : X) (v : ProxyState A) → LeavesGone (f x v))
      → LeavesGone (proceed q f)
  then_gone (ok x, v) f go = go x v
  then_gone (err e, v) f go = tt

  still_gone :
      {X Y : Type 0} (q : Result X × ProxyState A) (f : X → Exec (ProxyState A) Y)
      → LeavesGone q
      → ((x : X) (v : ProxyState A) → IsGone v → LeavesGone (f x v))
      → LeavesGone (proceed q f)
  still_gone (ok x, v) f g go = go x v g
  still_gone (err e, v) f g go = tt

  drop_gone : (e : Entry) (v : ProxyState A) → e.connectionid ≡ id → LeavesGone (drop e v)
  unfolding drop
  drop_gone e v same = rw same (get-remove id v.connections, refl)

  module _ (reg : Registry A) (call : String → Exec (ProxyState A) Bool) where
    entry_gone :
        (e : Entry) (v : ProxyState A)
        → str_eq e.connectionid id ≡ true
        → LeavesGone ((release_found reg call (C.get id v.connections) >> drop e) v)
    entry_gone e v same =
        then_gone (release_found reg call (C.get id v.connections) v) (λ _. drop e)
          (λ _ w. drop_gone e w ((eq_iff e.connectionid id).0 same))

    stays_gone :
        (es : List Entry) (v : ProxyState A)
        → IsGone v
        → LeavesGone (disconnect_in reg call id es v)
    unfolding disconnect_in
    stays_gone [] v g = g
    stays_gone (e ∷ es) v g = elim (Bool-cases (str_eq e.connectionid id)) [
      | inl same ↦ rw same (
          still_gone ((release_found reg call (C.get id v.connections) >> drop e) v)
            (λ _. disconnect_in reg call id es) (entry_gone e v same) (λ _ w g. stays_gone es w g))
      | inr other ↦ rw other (stays_gone es v g)
    ]

    becomes_gone :
        (es : List Entry) (v : ProxyState A)
        → any (λ e. str_eq e.connectionid id) es ≡ true
        → LeavesGone (disconnect_in reg call id es v)
    unfolding disconnect_in
    becomes_gone [] v h = absurd (cc)
    becomes_gone (e ∷ es) v h = elim (Bool-cases (str_eq e.connectionid id)) [
      | inl same ↦ rw same (
          still_gone ((release_found reg call (C.get id v.connections) >> drop e) v)
            (λ _. disconnect_in reg call id es) (entry_gone e v same) (λ _ w g. stays_gone es w g))
      | inr other ↦ rw other (becomes_gone es v (rw other at h))
    ]

  -- If a process serves the connection and `disconnect` returns, then the connection is gone, and the
  -- list that the other processes read is that of the service.
  pub disconnect_gone :
      (depth : ℕ) (reg : Registry A) (s : ProxyState A)
      → any (λ e. str_eq e.connectionid id) s.processes ≡ true
      → LeavesGone (disconnect depth reg id s)
  unfolding disconnect
  disconnect_gone zero reg s h = tt
  disconnect_gone (suc depth) reg s h =
      still_gone (disconnect_in reg (disconnect depth reg) id s.processes s) (λ _. pure false)
        (becomes_gone reg (disconnect depth reg) s.processes s h) (λ _ v g. g)
