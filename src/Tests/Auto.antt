-- ===== src/Tests/Auto.antt =====
-- The automatic connections of a client at a gate that has a price.
use lvpn.Prelude.{◌≡◌, refl, false, true, none, some, [], ◌∷◌}
use lvpn.Prelude.Int.{ℤ, pos, ◌+ℤ◌, ◌*ℤ◌}
use lvpn.Money.{whole_coins}
use lvpn.Session.World.{Registry, Config}
use lvpn.Manager.{replied, create_session, read_created}
use lvpn.Session.Creation.{generate}
use lvpn.Session.Loading.{load, contribute}
use lvpn.Session.Contributions.{add_contributions}
use lvpn.Session.Store.{save}
use lvpn.Session.Invoice.{get_pay_msgs}
use lvpn.Vdp.Objects.{get_manager_url}
use lvpn.Sessions.{find}
use lvpn.Client.Auto.{AutoState, AutoOptions, ExitSigns, auto_connect}
use lvpn.Client.Auto.Steps.{Steps}
use lvpn.Tests.Samples.{registry, client, world, unpaid}

abbrev forced : Config
forced = record client { forced = record { url = some "http://m"; wallet = none } }

abbrev here : Registry ℤ
here = registry forced (pos 10)

abbrev options : AutoOptions ℤ
options = record {
  auto_connect = "active,p.http/p.free,nonsense";
  auto_reconnect = 2;
  gate_ids = "p.http" ∷ [];
  space_ids = "p.free" ∷ [];
  managers = λ _ _ _ _ _. replied 402 unpaid;
}

abbrev empty : AutoState ℤ
empty = record { world = world; connects = []; orders = [] }

abbrev go_on : ExitSigns
go_on = record { at_start = false; before_wait = false; while_waiting = λ _. false }

abbrev leave : ExitSigns
leave = record { at_start = false; before_wait = true; while_waiting = λ _. false }

asked_twice :
    (auto_connect here options [] (go_on ∷ leave ∷ []) empty).1.connects ≡ "s-1" ∷ "s-1" ∷ []
unfolding auto_connect get_manager_url create_session read_created generate load contribute
    add_contributions save get_pay_msgs find ◌+ℤ◌ ◌*ℤ◌
asked_twice = refl
