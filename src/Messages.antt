-- ===== src/Messages.antt =====
-- The messages between processes (lib/messages.py) and their routing by the main loops of server.py
-- and client.py. A message is named by what stands before the colon; its payload is what was put
-- behind it, read back by get_msg_data.
pub mod Loop
use lvpn.Prelude.{String, Bool, true, false, List, [], ◌∷◌, ◌++◌, if◌then◌else◌}

-- `D` are the payloads of connections and sessions, `M` those of wallet messages.
pub data Message (D M : Type 0) : Type 0 where
  exit : Message D M
  connect disconnect connect_info : D → Message D M
  pay restore_wallet create_wallet : M → Message D M
  paid unpaid wallet_error : M → Message D M
  gui_popup : String → Message D M

-- What stands before the first `/`. No message is for `Main`.
pub data Target : Type 0 where
  all_processes the_proxy the_wallet the_gui : Target

pub data Process : Type 0 where
  gui proxy wallet daemon http manager stripe : Process

-- The processes that a main loop passes a message to, and whether the loop ends.
pub record Routed : Type 0 where
  pub processes : List Process
  pub ends : Bool

only : Bool → Process → List Process
only runs p = if runs then p ∷ [] else []

server_target : Bool → Bool → Target → Routed
server_target has_wallet has_stripe all_processes = record {
  processes = only has_wallet wallet ++ manager ∷ only has_stripe stripe;
  ends = false;
}
server_target has_wallet has_stripe the_wallet = record {
  processes = only has_wallet wallet;
  ends = false;
}
server_target has_wallet has_stripe the_proxy = record { processes = []; ends = true }
server_target has_wallet has_stripe the_gui = record { processes = []; ends = true }

client_target : Bool → Bool → Bool → Target → List Process
client_target run_gui run_proxy run_wallet all_processes =
    only run_gui gui
    ++ only run_proxy proxy
    ++ (if run_wallet then wallet ∷ daemon ∷ [] else [])
    ++ http ∷ []
client_target run_gui run_proxy run_wallet the_gui = only run_gui gui
client_target run_gui run_proxy run_wallet the_proxy = only run_proxy proxy
client_target run_gui run_proxy run_wallet the_wallet = only run_wallet wallet

module _ {D M : Type 0} where
  pub target : Message D M → Target
  target exit = all_processes
  target (paid _) = all_processes
  target (unpaid _) = all_processes
  target (wallet_error _) = all_processes
  target (connect _) = the_proxy
  target (disconnect _) = the_proxy
  target (connect_info _) = the_proxy
  target (pay _) = the_wallet
  target (restore_wallet _) = the_wallet
  target (create_wallet _) = the_wallet
  target (gui_popup _) = the_gui

  -- server.py: a message for nobody it knows ends the server.
  unfoldable pub server_route : Bool → Bool → Message D M → Routed
  unfolding target server_target only
  server_route has_wallet has_stripe msg = server_target has_wallet has_stripe (target msg)

  -- client.py: what nobody takes is passed over.
  unfoldable pub client_route : Bool → Bool → Bool → Message D M → Routed
  unfolding target client_target only
  client_route run_gui run_proxy run_wallet msg = record {
    processes = client_target run_gui run_proxy run_wallet (target msg);
    ends = false;
  }
