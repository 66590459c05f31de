-- ===== src/Sessions/Refreshing.antt =====
-- `Sessions.refresh_status` on a client (lib/sessions.py).
use lvpn.Prelude.{ℕ, String, true, Option, none, some, List, [], ◌∷◌}
use lvpn.Python.{Result, Exec, ok, err, pure, raise, lift, when, manager_error, ◌>>=◌, ◌>>◌}
use lvpn.Money.{Money}
use lvpn.Clock.{is_past}
use lvpn.Vdp.Objects.{get_manager_url}
use lvpn.Session.Data.{Session, SessionData, is_free}
use lvpn.Session.World.{World, Registry, time_time}
use lvpn.Session.Store.{save, remove}
use lvpn.Session.Loading.{load}
use lvpn.Sessions.{no_filter, cleanup, find}
use lvpn.Manager.{read_info, read_reused}

-- What a session's manager answers, by the session's id: a status and the data of a session.
pub record Answers (A : Type 0) : Type 0 where
  pub info : String → ℕ × SessionData A
  pub reuse : String → ℕ × SessionData A

module _ {A : Type 0} ⦃m : Money A⦄ (reg : Registry A) (answers : Answers A) where
  replace_by : SessionData A → Exec (World A) (Unit {0})
  replace_by d = do t ← load reg d; save t

  -- A free session that its server does not know any more goes, a paid one is only reported.
  forget : Session A → Exec (World A) (Unit {0})
  forget s = do now ← time_time; when (is_past now s.created) (when (is_free s) (remove reg true s))

  -- `except ManagerException`, where the error is only logged.
  update : Session A → Result (Option (SessionData A)) → Exec (World A) (Unit {0})
  unfolding replace_by forget
  update s (ok (some d)) = replace_by d
  update s (ok none) = forget s
  update s (err manager_error) = pure tt
  update s (err e) = raise e

  renew : Result (SessionData A) → Exec (World A) (Unit {0})
  unfolding replace_by
  renew (ok d) = replace_by d
  renew (err manager_error) = pure tt
  renew (err e) = raise e

  -- The manager of the space is asked about the session, after its url was looked up.
  ask_info : Session A → Exec (World A) (Unit {0})
  unfolding update
  ask_info s = do
    lift (get_manager_url reg.cfg.forced s.space.header s.space.provider)
    let (status, d) = answers.info s.sessionid
    update s (read_info status d)

  ask_reuse : Session A → Exec (World A) (Unit {0})
  unfolding renew
  ask_reuse s = do
    lift (get_manager_url reg.cfg.forced s.space.header s.space.provider)
    let (status, d) = answers.reuse s.sessionid
    renew (read_reused status d)

  for_each : (Session A → Exec (World A) (Unit {0})) → List (Session A) → Exec (World A) (Unit {0})
  for_each call [] = pure tt
  for_each call (s ∷ ss) = do call s; for_each call ss

  -- `ahead` is the option `reuse_session_ahead`.
  unfoldable pub refresh_on_client : ℕ → Exec (World A) (Unit {0})
  unfolding cleanup find ask_info ask_reuse for_each
  refresh_on_client ahead = do
    cleanup
    unpaid ← find reg 0 (record no_filter { notpaid = true })
    for_each ask_info unpaid
    ending ← find reg ahead (record no_filter { needs_reuse = true })
    for_each ask_reuse ending
