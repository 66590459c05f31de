-- ===== src/Session/Creation.antt =====
-- `Session.generate` (lib/session.py).
pub mod Terms
use Prim.Native.String.{◌++◌ as text_append}
use lvpn.Prelude.{
  ℕ, zero, suc, ◌+◌, String, Bool, true, false, Option, none, some, List, [], if◌then◌else◌,
}
use lvpn.Python.{
  Exec, Result, ok, err, pure, raise, lift, or_raise, vdp_error, unknown_gate, unknown_space,
  missing_days, attribute_error, ◌>>=◌,
}
use lvpn.Money.{Money}
use lvpn.Clock.{whole_seconds}
use lvpn.Vdp.Objects.{Gate, Space, is_wg, get_wallet}
use lvpn.Session.Data.{Session, SessionData, Price, amount, daily_price, is_free}
use lvpn.Session.World.{World, Config, Registry, time_time, token_hex}
use lvpn.Session.Contributions.{add_contributions}
use lvpn.Session.Activation.{activate}

-- `not days` holds of a missing number and of 0.
days_or : Option ℕ → Result ℕ → Result ℕ
days_or none other = other
days_or (some zero) other = other
days_or (some (suc n)) other = ok (suc n)

attribute : Option ℕ → Result ℕ
attribute none = err attribute_error
attribute (some n) = ok n

free_days : Config → Option ℕ → Result ℕ
unfolding days_or attribute
free_days cfg days = days_or days (attribute cfg.free_session_days)

paid_days : Config → Option ℕ → Result ℕ
unfolding days_or attribute
paid_days cfg days =
    days_or days
      (if cfg.is_client then attribute cfg.auto_pay_days else err (vdp_error missing_days))

module _ {A : Type 0} ⦃m : Money A⦄ where
  -- The dictionary before its days and its price are known.
  blank : Registry A → Gate A → Space A → String → String → Exec (World A) (Session A)
  blank reg gate space gateid spaceid = do
    sessionid ← token_hex 32
    created ← time_time
    paymentid ← token_hex 8
    username ← token_hex 8
    password ← token_hex 16
    bearer ← token_hex 32
    now ← time_time
    pure (record {
      data_of = record {
        sessionid = text_append "s-" sessionid;
        spaceid = spaceid;
        gateid = gateid;
        created = whole_seconds created;
        paymentid = paymentid;
        username = text_append "u-" username;
        password = password;
        bearer = text_append "b-" bearer;
        wallet = get_wallet reg.cfg.forced space.provider;
        expires = whole_seconds now + reg.cfg.unpaid_expiry;
        paid = false;
        payments = [];
        contributions = some [];
        activated = 0;
        payment_sent = some "";
        days = 0;
        price = amount m.nothing;
        parent = none;
        wg = none;
        ssh = none;
        proxy = none;
      };
      gate = gate;
      space = space;
    })

  abbrev pub with_terms : Session A → ℕ → A → Session A
  with_terms s days price = record s {
    data_of = record s.data_of { days = days; price = amount price };
  }

  abbrev pub with_payment_sent : Session A → String → Session A
  with_payment_sent s message = record s {
    data_of = record s.data_of { payment_sent = some message };
  }

  abbrev with_data : Session A → SessionData A → Session A
  with_data s d = record s { data_of = d }

  -- A free session for anything but WireGuard is activated, and so saved, at once.
  generate_free : Registry A → Option ℕ → Session A → Exec (World A) (Session A)
  unfolding free_days
  generate_free reg days s = do
    n ← lift (free_days reg.cfg days)
    let t = with_terms s n m.nothing
    (u, done) ← (if is_wg s.gate.type then pure (t, false) else activate reg t)
    pure (with_payment_sent u "Zero-Free-payment")

  contribute : Config → SessionData A → Result (SessionData A)
  contribute cfg d =
      if cfg.is_client
      then add_contributions cfg.contributions true d
      else if cfg.is_server
      then add_contributions cfg.contributions false d
      else ok d

  generate_paid : Registry A → Option ℕ → Session A → Exec (World A) (Session A)
  unfolding paid_days contribute
  generate_paid reg days s = do
    n ← lift (paid_days reg.cfg days)
    let t = with_terms s n (m.times (daily_price s.space s.gate) n)
    d ← lift (contribute reg.cfg t.data_of)
    pure (with_data t d)

  unfoldable pub generate : Registry A → String → String → Option ℕ → Exec (World A) (Session A)
  unfolding blank generate_free generate_paid
  generate reg gateid spaceid days = do
    space ← or_raise (reg.get_space spaceid) (vdp_error unknown_space)
    gate ← or_raise (reg.get_gate gateid) (vdp_error unknown_gate)
    s ← blank reg gate space gateid spaceid
    if is_free s then generate_free reg days s else generate_paid reg days s
