-- ===== src/Tests/Sessions/Lifecycle.antt =====
-- A concrete session is created, activated, loaded, reused, stored and cleaned up.
use lvpn.Prelude.{String, ◌≡◌, ◌≢◌, refl, true, some, List, [], ◌∷◌, ◌+◌, ◌*◌, select, not}
use lvpn.Prelude.Int.{ℤ, pos, ◌+ℤ◌, ◌-ℤ◌, ◌*ℤ◌}
use lvpn.Python.{ok, err, db_error}
use lvpn.Money.{whole_coins}
use lvpn.Clock.{tick, is_past}
use lvpn.Session.Data.{Session, Contribution, amount, tuple, get_contributions_price, is_fresh}
use lvpn.Session.World.{World, Registry}
use lvpn.Session.Contributions.{add_contributions, merge}
use lvpn.Session.Activation.{activate}
use lvpn.Session.Activation.Outcome.{Ended, activate-Ended}
use lvpn.Session.Creation.{generate}
use lvpn.Session.Creation.Terms.{Unpaid, generate-Unpaid}
use lvpn.Session.Reuse.{reuse}
use lvpn.Session.Reuse.Failure.{reuse_unsavable}
use lvpn.Session.Store.{row_of, save}
use lvpn.Session.Store.Rows.{saved}
use lvpn.Session.Payments.{with_payment}
use lvpn.Sessions.{cleanup, stored}
use lvpn.Sessions.Visible.{visible, visible-cleanup}
use lvpn.Sessions.Table.{stored-save}
use lvpn.Tests.Samples.{proxy_gate, free_space, server, registry, world, unpaid, session, payment}

abbrev here : Registry ℤ
here = registry (server []) (pos 10)

abbrev paid_up : Session ℤ
paid_up = with_payment session (payment 100) true

activate-Ended_example : Ended paid_up world (activate here paid_up world)
activate-Ended_example = activate-Ended here paid_up world

generate-Unpaid_example :
    Unpaid here "p.http" "p.free" world
      (proxy_gate (pos 10))
      free_space
      10
      (generate here "p.http" "p.free" (some 10) world)
unfolding ◌+ℤ◌
generate-Unpaid_example =
    generate-Unpaid here "p.http" "p.free" world (proxy_gate (pos 10)) free_space 9 refl refl refl
      refl

abbrev entry : List String
entry = "iz2" ∷ "exit" ∷ "10%" ∷ []

abbrev shares : List (Contribution ℤ)
shares = record { wallet = "iz2"; purpose = "exit.server"; price = pos 10 } ∷ []

abbrev charging : Registry ℤ
charging = registry (server (entry ∷ [])) (pos 10)

abbrev total : ℤ
total = get_contributions_price (merge [] shares)

abbrev once : Session ℤ
once = record {
  data_of = record unpaid {
    contributions = some (merge [] shares);
    price = amount (pos 100 -ℤ total);
  };
  gate = proxy_gate (pos 10);
  space = free_space;
}

abbrev reused : Session ℤ
reused = record session {
  data_of = record unpaid {
    sessionid = "s-00";
    paymentid = "00";
    password = "00";
    bearer = "b-00";
    payment_sent = some "";
    days = 5;
    price = tuple (pos 50);
  };
}

abbrev after_reuse : World ℤ
after_reuse = record world { clock = 2000 * tick + 2; readings = 2; drawn = 4 }

reuse_run : reuse here 5 session world ≡ (ok reused, after_reuse)
unfolding reuse add_contributions ◌+ℤ◌ ◌*ℤ◌
reuse_run = refl

reuse_unsavable_example :
    (here.cfg.contributions ≡ [])
    × ((v : World ℤ)
        → ((save reused v).1.rows ≡ v.rows)
          × (is_fresh (v.clock + v.delays v.readings) reused ≡ true
              → (save reused v).0 ≡ err db_error))
reuse_unsavable_example = reuse_unsavable here 5 session reused world after_reuse reuse_run

stored-save_example :
    (stored "s-1" (save session world).1.rows ≡ some (row_of session (pos 100)))
    × (◌≢◌ {A = String} "s-2" "s-1"
        → stored "s-2" (save session world).1.rows ≡ stored "s-2" world.rows)
stored-save_example = stored-save session (pos 100) "s-2" world refl refl

abbrev stocked : World ℤ
stocked = record (saved session (pos 100) world) { clock = 6000 * tick }

visible-cleanup_example :
    visible (cleanup stocked).1.rows
    ≡ select (λ r. not (is_past (6000 * tick + 1) r.expires)) (visible stocked.rows)
visible-cleanup_example = visible-cleanup stocked
