-- ===== src/Tests/Mail.antt =====
-- The main loops at concrete queues.
use lvpn.Prelude.{String, ◌≡◌, refl, true, false, [], ◌∷◌}
use lvpn.Messages.{Message, exit, connect, pay, gui_popup, client_route, proxy, wallet}
use lvpn.Messages.Loop.{Round, Mail, client_loop}

abbrev Letter : Type 0
Letter = Message String String

abbrev quiet : Round String String
quiet = record { stopped = false; arriving = [] }

abbrev busy : Round String String
busy = record { stopped = false; arriving = gui_popup "later" ∷ [] }

abbrev full : Mail String String
full = record { queue = pay "p" ∷ connect "s" ∷ exit ∷ []; sent = [] }

abbrev wrong : Mail String String
wrong = record { queue = pay "p" ∷ gui_popup "g" ∷ exit ∷ []; sent = [] }

client_passes_on :
    (client_loop true true true (busy ∷ quiet ∷ []) full).0.sent
    ≡ (wallet, pay "p") ∷ (proxy, connect "s") ∷ []
unfolding client_loop client_route
client_passes_on = refl

client_stops :
    (client_loop true true true (record { stopped = true; arriving = [] } ∷ quiet ∷ []) full).1
    ≡ true
unfolding client_loop
client_stops = refl
