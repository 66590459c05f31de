-- ===== src/Session/Activation/Outcome.antt =====
-- How an activation ends, on every branch: with an activated session that is saved, with the
-- session and the table as they were, or with an exception and the table as it was.
use lvpn.Prelude.{ℕ, ◌+◌, ◌*◌, ◌≡◌, refl, Bool, true, false, arith, inl, inr, ◌∙◌, ap}
use lvpn.Python.{Result, ok, err, proceed}
use lvpn.Money.{Money}
use lvpn.Clock.{day, whole_seconds}
use lvpn.Vdp.Objects.{
  GateType, http_proxy, socks_proxy, daemon_rpc_proxy, daemon_p2p_proxy, ssh, wg, other,
}
use lvpn.Session.Data.{Session, amount, get_payment, is_active, Price-cases}
use lvpn.Session.World.{World, Registry}
use lvpn.Session.Store.{run_command}
use lvpn.Session.Store.Rows.{saved_rows, save_lem, run_command_lem}
use lvpn.Session.Activation.{
  activate_wg, activate_tls, activate_ssh, activate_server, prepare, finish, attempt, activated_at,
  activate,
}

module _ {A : Type 0} where
  -- The session with other credentials, and nothing else changed.
  abbrev pub Reissued : Session A → Session A → Type 0
  Reissued s t = t ≡ record s { data_of = record s.data_of { ssh = t.ssh; proxy = t.proxy } }

  -- What the gate does before the session changes.
  abbrev Prepared : Session A → World A → Result (Session A × Bool) × World A → Type 0
  Prepared s w (ok (t, true), w') = Reissued s t × (w'.rows ≡ w.rows)
  Prepared s w (ok (t, false), w') = (t ≡ s) × (w'.rows ≡ w.rows)
  Prepared s w (err e, w') = w'.rows ≡ w.rows

  activate_wg-Prepared :
      (reg : Registry A) (s : Session A) (w : World A) → Prepared s w (activate_wg reg s w)
  unfolding activate_wg
  activate_wg-Prepared reg s w = ground arith

  activate_tls-Prepared :
      (reg : Registry A) (s : Session A) (w : World A) → Prepared s w (activate_tls reg s w)
  unfolding activate_tls
  activate_tls-Prepared reg s w = ground arith

module _ {A : Type 0} ⦃m : Money A⦄ where
  activate_ssh-Prepared :
      (reg : Registry A) (s : Session A) (w : World A) → Prepared s w (activate_ssh reg s w)
  unfolding activate_ssh
  activate_ssh-Prepared reg s w = ground arith

  activate_server-Prepared :
      (type : GateType) (reg : Registry A) (s : Session A) (w : World A)
      → Prepared s w (activate_server type reg s w)
  unfolding activate_server
  activate_server-Prepared ssh reg s w = activate_ssh-Prepared reg s w
  activate_server-Prepared wg reg s w = activate_wg-Prepared reg s w
  activate_server-Prepared (other _) reg s w = (refl, refl)
  activate_server-Prepared http_proxy reg s w = activate_tls-Prepared reg s w
  activate_server-Prepared socks_proxy reg s w = activate_tls-Prepared reg s w
  activate_server-Prepared daemon_rpc_proxy reg s w = activate_tls-Prepared reg s w
  activate_server-Prepared daemon_p2p_proxy reg s w = activate_tls-Prepared reg s w

  prepare-Prepared :
      (reg : Registry A) (s : Session A) (w : World A) → Prepared s w (prepare reg s w)
  unfolding prepare
  prepare-Prepared reg s w = ground (arith, activate_server-Prepared s.gate.type reg s w)

  -- The session that an activation at `now` leaves.
  abbrev pub Started : Session A → ℕ → Session A → Type 0
  Started s now t = t ≡ record s {
    data_of = record s.data_of {
      ssh = t.ssh;
      proxy = t.proxy;
      expires = now + s.days * day;
      activated = now;
    };
  }

  abbrev Finished : Session A → A → ℕ → World A → Result (Session A × Bool) × World A → Type 0
  Finished s p now w (ok (t, true), w') =
      Started s now t × (w'.rows ≡ saved_rows t p w'.clock w.rows)
  Finished s p now w (ok (t, false), w') = (t ≡ s) × (w'.rows ≡ w.rows)
  Finished s p now w (err e, w') = w'.rows ≡ w.rows

  Started-Reissued : (s t : Session A) (now : ℕ) → Reissued s t → Started s now (activated_at t now)
  Started-Reissued s t now same = rw same

  finish-Finished :
      (reg : Registry A) (s t : Session A) (p : A) (now : ℕ) (w : World A)
      → s.price ≡ amount p
      → Reissued s t
      → Finished s p now w (finish reg now (t, true) w)
  unfolding finish
  finish-Finished reg s t p now w e same =
      let u = activated_at t now in
      let w' = (run_command reg reg.cfg.on_session_activation t w).1 in
      ground (
        arith,
        run_command_lem reg reg.cfg.on_session_activation t w,
        save_lem u p w' (ap (λ (r : Session A). r.price) same ∙ e),
        Started-Reissued s t now same,
      )

  proceed-Finished :
      (reg : Registry A) (s : Session A) (p : A) (now : ℕ) (w : World A)
      (r : Result (Session A × Bool) × World A)
      → s.price ≡ amount p
      → Prepared s w r
      → Finished s p now w (proceed r (finish reg now))
  unfolding finish
  proceed-Finished reg s p now w (ok (t, false), w') e h = h
  proceed-Finished reg s p now w (err _, w') e h = h
  proceed-Finished reg s p now w (ok (t, true), w') e h =
      ground (arith, finish-Finished reg s t p now w' e h.0)

  abbrev pub Ended : Session A → World A → Result (Session A × Bool) × World A → Type 0
  Ended s w (ok (t, true), w') =
      (p : A) × (s.price ≡ amount p)
      × (m.at_most p (get_payment s.payments) ≡ true)
      × (is_active s ≡ false)
      × Started s (whole_seconds (w.clock + w.delays w.readings)) t
      × (w'.rows ≡ saved_rows t p w'.clock w.rows)
  Ended s w (ok (t, false), w') = (t ≡ s) × (w'.rows ≡ w.rows)
  Ended s w (err e, w') = w'.rows ≡ w.rows

  attempt-Ended :
      (reg : Registry A) (s : Session A) (p : A) (w : World A)
      → s.price ≡ amount p
      → Ended s w (attempt reg s p w)
  unfolding attempt
  attempt-Ended reg s p w e =
      let now = w.clock + w.delays w.readings in
      let w' = record w { clock = now; readings = w.readings + 1 } in
      ground (
        arith,
        proceed-Finished reg s p (whole_seconds now) w' (prepare reg s w') e
            (prepare-Prepared reg s w'),
      )

  -- However `activate` ends: if it returns True, the session was not active, its price is an amount
  -- that its payments cover, its expiry is the time of the first reading plus its days, only its
  -- credentials, its expiry and its activation have changed, and the row is saved unless it has
  -- expired already; if it returns False, the session and the table are as before; if it raises,
  -- the table is as before.
  pub activate-Ended :
      (reg : Registry A) (s : Session A) (w : World A) → Ended s w (activate reg s w)
  unfolding activate
  activate-Ended reg s w = elim (Price-cases s.price) [
    | inl (p, e) ↦ ground (arith, attempt-Ended reg s p w e)
    | inr (p, e) ↦ ground arith
  ]
