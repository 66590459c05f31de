-- ===== src/Tests/Wallet.antt =====
-- The wallet's loop at two messages, and a log of two entries.
use lvpn.Prelude.{◌≡◌, ◌≤◌, refl, true, false, none, some, List, [], ◌∷◌, ◌++◌, length, arith}
use lvpn.Prelude.Int.{ℤ, pos, ◌+ℤ◌, ◌*ℤ◌}
use lvpn.Money.{whole_coins}
use lvpn.Python.{ok}
use lvpn.Messages.{pay, paid, exit}
use lvpn.Wallet.{Destination, result, transfer, rpc, get_balance, get_unlocked_balance}
use lvpn.Wallet.Serving.{order, Round, Ledger, WalletService, serve}
use lvpn.Wallet.Serving.Adding.{Adds}
use lvpn.Wallet.Serving.Answered.{AllAnswered, serve-AllAnswered}
use lvpn.Service.{take_first, log_all}
use lvpn.Service.Oldest.{log_all-take_first}
use lvpn.Tests.Samples.{server, registry, world}

abbrev ledger : Ledger
ledger = record { heights = λ _. ok (some 30000); in_transfers = λ _ _ _. ok (some []) }

abbrev service : WalletService ℤ
service = record {
  wallet = record {
    replies = λ _. result (record { balance = 200; unlocked = 150 });
    asked = 0;
    sent = [];
  };
  world = world;
  skew = 20000;
  inspected = 0;
  queue = [];
}

abbrev destinations : List (Destination ℤ)
destinations = record { wallet = "iz2"; amount = pos 100 } ∷ []

abbrev rounds : List (Round ℤ)
rounds =
    record { is_due = true; letter = none }
    ∷ record { is_due = false; letter = some (pay (order destinations "0123456789abcdef")) }
    ∷ record { is_due = false; letter = some exit }
    ∷ []

served :
    (serve (pos 1) 10 ledger (registry (server []) (pos 0)) rounds service).1.queue
    ≡ paid (order destinations "0123456789abcdef") ∷ []
unfolding serve transfer get_balance get_unlocked_balance rpc ◌+ℤ◌ ◌*ℤ◌
served = refl

serve-AllAnswered_example :
    Adds
      (λ _ answers sent. AllAnswered rounds answers sent)
      service
      (serve (pos 1) 10 ledger (registry (server []) (pos 0)) rounds service)
serve-AllAnswered_example =
    serve-AllAnswered (pos 1) 10 ledger (registry (server []) (pos 0)) rounds service

log_all-take_first_example :
    (log_all ("c" ∷ []) ("a" ∷ "b" ∷ []) ≡ take_first 30 (("a" ∷ "b" ∷ []) ++ ("c" ∷ [])))
    × (length (log_all ("c" ∷ []) ("a" ∷ "b" ∷ [])) ≤ 30)
log_all-take_first_example = log_all-take_first ("c" ∷ []) ("a" ∷ "b" ∷ []) (ground arith)
