-- ===== src/Server/Http/Days.antt =====
-- The limit on the days of free sessions, and WireGuard.
use lvpn.Prelude.{
  ℕ, ◌+◌, ◌*◌, ◌≤◌, ◌≡◌, ◌≢◌, refl, sym, ap, subst, ◌∙◌, true, false, Option, none, some, arith,
  inl, inr, Bool-cases,
}
use lvpn.Prelude.Int.{pos, ltb_ℤ}
use lvpn.Session.Store.{save}
use lvpn.Python.{Result, pure, ok, err, Returns, Returns-proceed, proceed}
use lvpn.Money.{Money}
use lvpn.Clock.{tick, day, units_left}
use lvpn.Vdp.Objects.{Gate, Space, is_wg, gate_id, space_id, is_for_space}
use lvpn.Session.Data.{Session, get_dict, is_free, daily_price}
use lvpn.Session.World.{World, Registry}
use lvpn.Session.Creation.{generate}
use lvpn.Wireguard.Preparation.{WgRequest, prepare_server_session}
use lvpn.Server.Http.{
  Answer, with_session, SessionRequest, code_of, answer, local_space, local_gate, post_found,
  save_and_answer, prepare_wg, check_days, hand_out, post_session,
}

module _ {A : Type 0} ⦃m : Money A⦄ (reg : Registry A) (gate : Gate A) (space : Space A) where
  -- The session expires as an unpaid one does.
  abbrev Waiting : Result (Session A) × World A → Type 0
  Waiting (ok s, v) =
      (s.expires * tick ≤ v.clock + reg.cfg.unpaid_expiry * tick)
      × (is_free s ≡ true)
      × (is_wg s.gate.type ≡ true)
  Waiting (err _, v) = Unit

  generate-Waiting :
      (days : ℕ) (w : World A)
      → reg.get_gate (gate_id gate) ≡ some gate
      → reg.get_space (space_id space) ≡ some space
      → is_wg gate.type ≡ true
      → m.is_zero (daily_price space gate) ≡ true
      → Waiting (generate reg (gate_id gate) (space_id space) (some days) w)
  unfolding generate
  generate-Waiting days w g s wg free = ground arith

some-injective : {X : Type 0} {x y : X} → some x ≡ some y → x ≡ y
some-injective h = cc

units_left_waiting :
    (most unpaid expires clock now : ℕ)
    → expires * tick ≤ clock + unpaid * tick
    → unpaid ≤ most * day
    → clock ≤ now
    → ltb_ℤ (pos most) (units_left day now expires) ≡ false
units_left_waiting most unpaid expires clock now e u n = ground arith

module _ {A : Type 0} ⦃m : Money A⦄ (reg : Registry A) where
  abbrev IsAccepted : Answer A → Type 0
  IsAccepted r = code_of r ≢ 463

  answer-IsAccepted : (s : Session A) → IsAccepted (answer s)
  unfolding answer
  answer-IsAccepted s = ground arith

  save_and_answer-IsAccepted :
      (s : Session A) (w : World A) → Returns IsAccepted (save_and_answer s w)
  unfolding save_and_answer
  save_and_answer-IsAccepted s w =
      Returns-proceed IsAccepted (save s w) (λ _. pure (answer s)) (λ _ v _. answer-IsAccepted s)

  prepare_wg-IsAccepted :
      (request : Option WgRequest) (s : Session A) (w : World A)
      → Returns IsAccepted (prepare_wg reg request s w)
  unfolding prepare_wg
  prepare_wg-IsAccepted none s w =
      Returns-proceed IsAccepted (save s w) (λ _. pure (with_session 465 (get_dict s)))
        (λ _ v _ h. ground arith)
  prepare_wg-IsAccepted (some request) s w =
      Returns-proceed IsAccepted (prepare_server_session reg s request w) save_and_answer
        (λ t v _. save_and_answer-IsAccepted t v)

  check_days-IsAccepted :
      (request : Option WgRequest) (s : Session A) (w : World A)
      → s.expires * tick ≤ w.clock + reg.cfg.unpaid_expiry * tick
      → is_free s ≡ true
      → is_wg s.gate.type ≡ true
      → reg.cfg.unpaid_expiry ≤ reg.cfg.max_free_session_days * day
      → Returns IsAccepted (check_days reg request s w)
  unfolding check_days hand_out
  check_days-IsAccepted request s w e free wg short =
      let now = w.clock + w.delays w.readings in
      simp (free, wg, units_left_waiting _ _ _ w.clock now e short (omega arith))
        (prepare_wg-IsAccepted request s (record w { clock = now; readings = w.readings + 1 }))

  proceed-IsAccepted :
      (gate : Gate A) (space : Space A) (request : Option WgRequest)
      (r : Result (Session A) × World A)
      → Waiting reg gate space r
      → reg.cfg.unpaid_expiry ≤ reg.cfg.max_free_session_days * day
      → Returns IsAccepted (proceed r (check_days reg request))
  proceed-IsAccepted gate space request (ok s, v) waiting short =
      check_days-IsAccepted request s v waiting.0 waiting.1 waiting.2 short
  proceed-IsAccepted gate space request (err _, v) waiting short = tt

  -- The handler once the space and the gate are looked up.
  post_found-IsAccepted :
      (request : SessionRequest) (found : Option (Space A)) (found_gate : Option (Gate A))
      (w : World A)
      → ((q : Space A) (h : Gate A)
          → found ≡ some q
          → found_gate ≡ some h
          → Returns IsAccepted (
              proceed
                (generate reg (gate_id h) (space_id q) (some request.days) w)
                (check_days reg request.wg)))
      → Returns IsAccepted (post_found reg request found found_gate w)
  unfolding post_found
  post_found-IsAccepted request none found_gate w accepted = λ h. ground arith
  post_found-IsAccepted request (some q) none w accepted = λ h. ground arith
  post_found-IsAccepted request (some q) (some h) w accepted =
      elim (Bool-cases (is_for_space h (space_id q))) [
        | inl e ↦ simp e (accepted q h refl refl)
        | inr e ↦ simp e (λ c. ground arith)
      ]

  local_space_same : (o : Option (Space A)) (q : Space A) → local_space o ≡ some q → o ≡ some q
  unfolding local_space
  local_space_same o q e = ground arith

  local_gate_same : (o : Option (Gate A)) (h : Gate A) → local_gate o ≡ some h → o ≡ some h
  unfolding local_gate
  local_gate_same o h e = ground arith

  -- For a free session on a WireGuard gate, a local one that is for the local space, no number of days
  -- is refused as too many, if unpaid sessions expire within the limit: what the limit is compared
  -- with is the time until the session expires unpaid.
  pub post_session_any_days :
      (request : SessionRequest) (gate : Gate A) (space : Space A) (w w' : World A) {r : Answer A}
      → request.gateid ≡ gate_id gate
      → request.spaceid ≡ space_id space
      → reg.get_gate (gate_id gate) ≡ some gate
      → reg.get_space (space_id space) ≡ some space
      → is_wg gate.type ≡ true
      → m.is_zero (daily_price space gate) ≡ true
      → reg.cfg.unpaid_expiry ≤ reg.cfg.max_free_session_days * day
      → post_session reg request w ≡ (ok r, w')
      → code_of r ≢ 463
  unfolding post_session
  post_session_any_days request gate space w w' {r} gi si g s wg free short run =
      let accepted : Returns IsAccepted (post_session reg request w) =
        post_found-IsAccepted request (local_space (reg.get_space request.spaceid))
          (local_gate (reg.get_gate request.gateid)) w
          (λ q h e f.
            let q_same : space ≡ q = some-injective (
              sym s
              ∙ ap reg.get_space (sym si)
              ∙ local_space_same (reg.get_space request.spaceid) q e) in
            let h_same : gate ≡ h = some-injective (
              sym g
              ∙ ap reg.get_gate (sym gi)
              ∙ local_gate_same (reg.get_gate request.gateid) h f) in
            subst
              (λ p. Returns IsAccepted (
                proceed (generate reg (gate_id h) (space_id p) (some request.days) w)
                  (check_days reg request.wg)))
              q_same
              (subst
                (λ k. Returns IsAccepted (
                  proceed (generate reg (gate_id k) (space_id space) (some request.days) w)
                    (check_days reg request.wg)))
                h_same
                (proceed-IsAccepted gate space request.wg _
                  (generate-Waiting reg gate space request.days w g s wg free) short))) in
      subst (Returns IsAccepted) run accepted
