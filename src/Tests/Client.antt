-- ===== src/Tests/Client.antt =====
-- Connections that are dead, a transfer, a payment at Stripe and an object of the description table.
use lvpn.Prelude.{ℕ, ◌+◌, ◌≤◌, String, ◌≡◌, refl, true, false, none, some, List, [], ◌∷◌, arith}
use lvpn.Prelude.Int.{ℤ, pos}
use lvpn.Python.{Result, ok}
use lvpn.Money.{whole_coins}
use lvpn.Client.Connections.{Connection, check_alive}
use lvpn.Client.Connections.Check.{check_alive_skips}
use lvpn.Server.Stripe.{Stripe, PaymentIntent, started, listed, run}
use lvpn.Server.Stripe.Once.{count, confirmations, run_sends_once}
use lvpn.Vdp.Objects.{get_revision}
use lvpn.Vdp.Table.{VdpObject, VdpRow, gate_type, save_object}
use lvpn.Vdp.Table.Revisions.{Ended, save_object-Ended}
use lvpn.Wallet.{result, Destination, WalletState, transfer}
use lvpn.Wallet.Transfers as T
use lvpn.Tests.Samples.{header}

abbrev connection : String → Connection
connection id = record {
  connectionid = id;
  sessionid = "s-1";
  gateid = "p.http";
  spaceid = "p.free";
  host = "127.0.0.1";
  port = some 8080;
  parent = none;
  children = [];
}

check_alive_skips_example :
    check_alive (λ _. ok false) (connection "c-1" ∷ connection "c-2" ∷ connection "c-3" ∷ [])
    ≡ (ok tt, connection "c-2" ∷ [])
check_alive_skips_example =
    check_alive_skips (λ _. ok false) (connection "c-1" ∷ connection "c-2" ∷ connection "c-3" ∷ [])
      (refl, (refl, (refl, tt))) (refl, (refl, (refl, tt)))

abbrev intent : PaymentIntent
intent = record {
  id = "pi_1";
  succeeded = true;
  amount = 500;
  metadata = some (record {
    paid = false;
    wallet = some "iz1";
    paymentid = some "0123456789abcdef";
    amount1 = some "20";
  });
}

abbrev message : String → ℕ → String → String → Result String
message _ _ _ _ = ok "Wallet/Pay:iz1"

abbrev waiting : Stripe
waiting = record {
  messages = ("Wallet/Pay:iz1", intent) ∷ [];
  queue = "Wallet/Pay:iz1" ∷ [];
  marked = [];
}

run_twice : run message (listed (intent ∷ []) ∷ listed (intent ∷ []) ∷ []) started ≡ ok waiting
unfolding run
run_twice = refl

run_sends_once_example :
    count "Wallet/Pay:iz1" ("Wallet/Pay:iz1" ∷ [])
    ≤ confirmations "Wallet/Pay:iz1" (listed (intent ∷ []) ∷ listed (intent ∷ []) ∷ []) + 1
run_sends_once_example =
    run_sends_once message (listed (intent ∷ []) ∷ listed (intent ∷ []) ∷ []) "Wallet/Pay:iz1"
      waiting run_twice

abbrev object : VdpObject ℤ
object = record {
  tpe = gate_type;
  id = "p.http";
  providerid = "p";
  spaces = "p.free" ∷ [];
  header = header (pos 10);
  is_local = true;
  readonly = false;
}

abbrev older : VdpRow ℤ
older = record {
  id = "p.http";
  tpe = gate_type;
  data_of = object;
  my = true;
  readonly = false;
  expiry = 4500;
  revision = 900;
  ttl = 3600;
}

save_object-Ended_example : Ended object (older ∷ []) (save_object object 0 (older ∷ []))
unfolding get_revision
save_object-Ended_example = save_object-Ended object 0 (older ∷ []) (refl, tt) (ground arith)

abbrev wallet : WalletState ℤ
wallet = record {
  replies = λ _. result (record { balance = 200; unlocked = 150 });
  asked = 0;
  sent = [];
}

abbrev destinations : List (Destination ℤ)
destinations = record { wallet = "iz2"; amount = pos 100 } ∷ []

transfer-Ended_example :
    T.Ended
      (pos 1)
      destinations
      "0123456789abcdef"
      wallet
      (transfer (pos 1) 5 destinations "0123456789abcdef" wallet)
transfer-Ended_example = T.transfer-Ended (pos 1) destinations "0123456789abcdef" 5 wallet
