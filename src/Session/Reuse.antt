-- ===== src/Session/Reuse.antt =====
-- `Session.reuse` (lib/session.py), for a number of days.
pub mod Failure
use Prim.Native.String.{◌++◌ as text_append}
use lvpn.Prelude.{ℕ, ◌+◌, Bool, true, false, none, some, []}
use lvpn.Python.{Exec, pure, lift, ◌>>=◌}
use lvpn.Money.{Money}
use lvpn.Clock.{whole_seconds}
use lvpn.Vdp.Objects.{get_wallet}
use lvpn.Session.Data.{Session, SessionData, Price, tuple, daily_price}
use lvpn.Session.World.{World, Registry, time_time, token_hex}
use lvpn.Session.Contributions.{add_contributions}

module _ {A : Type 0} ⦃m : Money A⦄ where
  -- The price is stored as a tuple: `self._data["price"] = price,`. The contributions are kept.
  renew : Registry A → ℕ → Session A → Exec (World A) (SessionData A)
  renew reg days s = do
    sessionid ← token_hex 8
    created ← time_time
    paymentid ← token_hex 8
    password ← token_hex 10
    bearer ← token_hex 12
    now ← time_time
    pure (record s.data_of {
      sessionid = text_append "s-" sessionid;
      wallet = get_wallet reg.cfg.forced s.space.provider;
      created = whole_seconds created;
      paymentid = paymentid;
      password = password;
      bearer = text_append "b-" bearer;
      days = days;
      expires = whole_seconds now + reg.cfg.unpaid_expiry;
      paid = false;
      payments = [];
      activated = 0;
      price = tuple (m.times (daily_price s.space s.gate) days);
      payment_sent = some "";
    })

  unfoldable pub reuse : Registry A → ℕ → Session A → Exec (World A) (Session A)
  unfolding renew
  reuse reg days s = do
    renewed ← renew reg days s
    d ← lift (add_contributions reg.cfg.contributions false renewed)
    pure (record s { data_of = d })
