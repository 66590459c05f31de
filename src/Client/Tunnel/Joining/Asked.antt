-- ===== src/Client/Tunnel/Joining/Asked.antt =====
-- What the start of the client's service for a gate leaves in the queue (client/wg_service.py).
use lvpn.Prelude.{
  String, ◌≡◌, refl, ap, ◌⊎◌, inl, inr, true, false, Bool-cases, Option, none, some, List, [], ◌∷◌,
  eq_iff, arith,
}
use lvpn.Python.{
  Result, Exec, ok, pure, lift, or_raise, Leaves, Leaves-proceed, Leaves-weaken, attribute_error,
}
use lvpn.Money.{Money}
use lvpn.Vdp.Objects.{Gate, Space, gate_id, space_id, get_manager_url}
use lvpn.Session.Data.{Session, SessionData, WgSession}
use lvpn.Session.World.{World, Registry}
use lvpn.Session.Store.{save, remove}
use lvpn.Session.Loading.{load}
use lvpn.Sessions.{no_filter, find}
use lvpn.Manager.{create_session}
use lvpn.Messages.{connect, gui_popup}
use lvpn.Wireguard.Dump.{Interface}
use lvpn.Wireguard.Interface.{Templates, Machine, Tunnels, here}
use lvpn.Client.Tunnel.{prepare_session_request}
use lvpn.Client.Tunnel.Joining.{
  Managers, Note, is_outdated, missing_gate, keep, replace, rekeyed_or_new, ask_rekey, renew,
  current, with_parent, remove_all, child_days, request_child, request_named, request_children,
}

module _ {A : Type 0} ⦃money : Money A⦄ (reg : Registry A) (t : Templates) (m : Machine)
    (managers : Managers A) where
  -- The answer to the name of a gate: a request to connect a session of which the tunnel's is the
  -- parent, or a message for the user.
  abbrev pub Answers : String → String → Option (Gate A) → Note A → Type 0
  Answers parent name none note = note ≡ gui_popup (missing_gate name)
  Answers parent name (some gate) note =
      (child : Session A) × (note ≡ connect child) × (child.parent ≡ some parent)

  abbrev pub AnswersAll : String → List String → List (Note A) → Type 0
  AnswersAll parent [] [] = Unit
  AnswersAll parent (name ∷ names) (note ∷ notes) =
      Answers parent name (reg.get_gate name) note × AnswersAll parent names notes
  AnswersAll parent _ _ = ⊥

  -- The data of a session that comes from the manager: of the rekeyed one, or else of a new one.
  abbrev pub Received : Session A → Option (SessionData A) → SessionData A → Type 0
  Received before (some d) given = given ≡ d
  Received before none given =
      (key : Option String) × (u : World A) × (v : World A) × (create_session (managers.posts key)
          reg before.gate before.space (some before.days) u
        ≡ (ok given, v))

  abbrev pub Loaded : SessionData A → Session A → Type 0
  Loaded given now = (u : World A) × (v : World A) × (load reg given u ≡ (ok now, v))

  -- The session goes on if it has the key of this interface. Otherwise the manager was asked for
  -- another one with this key, and the session is loaded from what came of it.
  abbrev pub Settled : Session A → Interface → Session A → Type 0
  Settled before i now =
      ((now ≡ before)
        × ((peer : WgSession) × (before.wg ≡ some peer) × (i.public ≡ peer.client_public_key)))
      ⊎ ((reply : Option (SessionData A)) × (given : SessionData A) × (ask_rekey reg t m managers
              before i
            ≡ ok reply)
          × Received before reply given
          × Loaded given now)

  request_child-Answers :
      (space : Space A) (parent name : String) (gate : Gate A) (s : Tunnels A)
      → Leaves
          (λ note _. Answers parent name (some gate) note)
          (request_child reg t m managers space parent gate s)
  unfolding request_child
  request_child-Answers space parent name gate s =
      let P = λ (note : Note A) (_ : Tunnels A). Answers parent name (some gate) note in
      Leaves-proceed P
        (here
          (find reg 0 (record no_filter {
            active = true;
            free = true;
            gateid = some (gate_id gate);
            spaceid = some (space_id space);
          }))
          s)
        _
        (λ fresh v0 _. Leaves-proceed P (here (remove_all reg t m managers fresh) v0) _ (λ _ v1 _.
          Leaves-proceed P (lift (get_manager_url reg.cfg.forced space.header space.provider) v1) _
            (λ _ v2 _.
              Leaves-proceed P
                (or_raise (child_days reg t m managers space gate) attribute_error v2) _
                (λ days v3 _.
                  Leaves-proceed P
                    (here (create_session (managers.posts none) reg gate space (some days)) v3) _
                    (λ d v4 _. Leaves-proceed P (here (load reg d) v4) _ (λ session v5 _.
                      Leaves-proceed P
                        (here (save (with_parent reg t m managers parent session)) v5)
                        (λ _. pure (connect (with_parent reg t m managers parent session)))
                        (λ _ v6 _. (with_parent reg t m managers parent session, refl, refl))))))))

  request_named-Answers :
      (space : Space A) (parent name : String) (gate : Option (Gate A)) (s : Tunnels A)
      → Leaves
          (λ note _. Answers parent name gate note)
          (request_named reg t m managers space parent name gate s)
  unfolding request_named
  request_named-Answers space parent name none s = refl
  request_named-Answers space parent name (some gate) s =
      request_child-Answers space parent name gate s

  pub Leaves-at :
      {X : Type 0} (P : X → Tunnels A → Type 0) (r : Result X × Tunnels A) {x : X} {v : Tunnels A}
      → r ≡ (ok x, v)
      → Leaves P r
      → P x v
  Leaves-at P r e h = rw e at h

  pub request_children-AnswersAll :
      (space : Space A) (parent : String) (names : List String) (s : Tunnels A)
      → Leaves
          (λ notes _. AnswersAll parent names notes)
          (request_children reg t m managers space parent names s)
  unfolding request_children
  request_children-AnswersAll space parent [] s = tt
  request_children-AnswersAll space parent (name ∷ names) s =
      let P = λ (notes : List (Note A)) (_ : Tunnels A). AnswersAll parent (name ∷ names) notes in
      Leaves-proceed P (request_named reg t m managers space parent name (reg.get_gate name) s) _
        (λ note v0 e0.
          Leaves-proceed P (request_children reg t m managers space parent names v0)
            (λ notes. pure (note ∷ notes))
            (λ notes v1 e1. (
              Leaves-at _ _ e0 (request_named-Answers space parent name (reg.get_gate name) s),
              Leaves-at _ _ e1 (request_children-AnswersAll space parent names v0),
            )))

  here-at :
      {X : Type 0} (call : Exec (World A) X) (s v : Tunnels A) {x : X}
      → here call s ≡ (ok x, v)
      → (w : World A) × (call s.world ≡ (ok x, w))
  here-at call s v {x} h = ((call s.world).1, rw (ap (λ q. q.0) h) refl)

  keep-Loaded :
      (given : SessionData A) (s : Tunnels A)
      → Leaves (λ now _. Loaded given now) (keep reg t m managers given s)
  unfolding keep
  keep-Loaded given s =
      Leaves-proceed (λ now _. Loaded given now) (here (load reg given) s) _
        (λ now v e.
          let (w, h) = here-at (load reg given) s v e in
          Leaves-proceed (λ now _. Loaded given now) (here (save now) v) (λ _. pure now)
            (λ _ u _. (s.world, w, h)))

  abbrev Renewed : Session A → Option (SessionData A) → Session A → Tunnels A → Type 0
  Renewed before reply now v =
      (given : SessionData A) × Received before reply given × Loaded given now

  replace-Renewed :
      (iface : String) (session : Session A) (s : Tunnels A)
      → Leaves (Renewed session none) (replace reg t m managers iface session s)
  unfolding replace
  replace-Renewed iface session s =
      Leaves-proceed (Renewed session none) (here (remove reg false session) s) _ (λ _ v0 _.
        Leaves-proceed (Renewed session none) (prepare_session_request reg t m iface v0) _
          (λ key v1 _.
            Leaves-proceed (Renewed session none)
              (here
                (create_session (managers.posts key) reg session.gate session.space
                  (some session.days))
                v1)
              (λ d. keep reg t m managers d)
              (λ d v2 e.
                let (w, h) =
                  here-at
                    (create_session (managers.posts key) reg session.gate session.space
                      (some session.days))
                    v1 v2 e in
                Leaves-weaken (λ now _. Loaded d now) (Renewed session none)
                  (keep reg t m managers d v2) (λ now u k. (d, (key, v1.world, w, h), k))
                  (keep-Loaded d v2))))

  rekeyed_or_new-Renewed :
      (iface : String) (session : Session A) (reply : Option (SessionData A)) (s : Tunnels A)
      → Leaves (Renewed session reply) (rekeyed_or_new reg t m managers iface session reply s)
  unfolding rekeyed_or_new
  rekeyed_or_new-Renewed iface session none s = replace-Renewed iface session s
  rekeyed_or_new-Renewed iface session (some d) s =
      Leaves-weaken (λ now _. Loaded d now) (Renewed session (some d)) (keep reg t m managers d s)
        (λ now u k. (d, refl, k)) (keep-Loaded d s)

  renew-Settled :
      (iface : String) (gate : Gate A) (session : Session A) (i : Interface) (s : Tunnels A)
      → Leaves (λ now _. Settled session i now) (renew reg t m managers iface gate session i s)
  unfolding renew
  renew-Settled iface gate session i s =
      let P = λ (now : Session A) (_ : Tunnels A). Settled session i now in
      Leaves-proceed P (lift (get_manager_url reg.cfg.forced gate.header gate.provider) s) _
        (λ _ v0 _.
          Leaves-proceed P (lift (ask_rekey reg t m managers session i) v0)
            (λ reply. rekeyed_or_new reg t m managers iface session reply)
            (λ reply v1 e.
              Leaves-weaken (Renewed session reply) P
                (rekeyed_or_new reg t m managers iface session reply v1)
                (λ now u (given, r, l). inr (reply, given, ap (λ q. q.0) e, r, l))
                (rekeyed_or_new-Renewed iface session reply v1)))

  is_outdated-false :
      (wg : Option WgSession) (i : Interface)
      → is_outdated wg i ≡ false
      → (peer : WgSession) × (wg ≡ some peer) × (i.public ≡ peer.client_public_key)
  unfolding is_outdated
  is_outdated-false none i h = absurd (cc)
  is_outdated-false (some peer) i h =
      (peer, refl, ground (arith, eq_iff i.public peer.client_public_key))

  pub current-Settled :
      (iface : String) (gate : Gate A) (session : Session A) (i : Interface) (s : Tunnels A)
      → Leaves (λ now _. Settled session i now) (current reg t m managers iface gate session i s)
  unfolding current
  current-Settled iface gate session i s = elim (Bool-cases (is_outdated session.wg i)) [
    | inl old ↦ simp old (renew-Settled iface gate session i s)
    | inr good ↦ simp good (inl (refl, is_outdated-false session.wg i good))
  ]
