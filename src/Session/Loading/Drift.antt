-- ===== src/Session/Loading/Drift.antt =====
-- What a load does to a session that is already complete.
use lvpn.Money.{Money}
use lvpn.Session.Data.{Session}
use lvpn.Session.World.{World}
