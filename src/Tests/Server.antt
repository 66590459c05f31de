-- ===== src/Tests/Server.antt =====
-- A request for a free WireGuard session of 400 days, where 5 are allowed.
use lvpn.Prelude.{◌≡◌, ◌≢◌, refl, false, none, some, [], ◌∷◌, ◌+◌, ◌*◌, arith}
use lvpn.Prelude.Int.{ℤ, pos, ◌+ℤ◌}
use lvpn.Python.{ok}
use lvpn.Money.{whole_coins}
use lvpn.Clock.{tick}
use lvpn.Session.Data.{SessionData, amount}
use lvpn.Session.World.{World, Row, Registry, sql_false}
use lvpn.Session.Creation.{generate}
use lvpn.Session.Store.{save}
use lvpn.Wireguard.Engine.{get_interface_name}
use lvpn.Wireguard.Dump.{gather_wg_data}
use lvpn.Wireguard.Addresses.{find_free_ip}
use lvpn.Wireguard.Preparation.{prepare_server_session}
use lvpn.Server.Http.{SessionRequest, with_session, post_session, code_of}
use lvpn.Server.Http.Days.{post_session_any_days}
use lvpn.Tests.Samples.{wg_gate, free_space, server, registry, world, unpaid, tunnel}

abbrev here : Registry ℤ
here = registry (server []) (pos 0)

abbrev request : SessionRequest
request = record {
  gateid = "p.wg";
  spaceid = "p.free";
  days = 400;
  wg = some (record { public_key = "client-key"; endpoint = none });
}

abbrev handed_out : SessionData ℤ
handed_out = record unpaid {
  sessionid = "s-00";
  gateid = "p.wg";
  paymentid = "00";
  username = "u-00";
  password = "00";
  bearer = "b-00";
  days = 400;
  price = amount (pos 0);
  payment_sent = none;
  wg = some tunnel;
}

abbrev stored_row : Row ℤ
stored_row = record {
  id = "s-00";
  data_of = handed_out;
  activated = 0;
  created = 2000;
  expires = 5600;
  paymentid = "00";
  paid = false;
  gateid = "p.wg";
  spaceid = "p.free";
  parent = sql_false;
  price = pos 0;
  deleted = false;
}

abbrev afterwards : World ℤ
afterwards = record world {
  clock = 2000 * tick + 4;
  readings = 4;
  drawn = 6;
  rows = stored_row ∷ [];
}

run_post_session : post_session here request world ≡ (ok (with_session 402 handed_out), afterwards)
unfolding post_session generate prepare_server_session find_free_ip get_interface_name
    gather_wg_data save ◌+ℤ◌
run_post_session = refl

post_session_any_days_example : code_of (with_session 402 handed_out) ≢ 463
unfolding ◌+ℤ◌
post_session_any_days_example =
    post_session_any_days here request wg_gate free_space world afterwards refl refl refl refl refl
      refl (omega arith) run_post_session
