-- ===== src/Messages/Loop/Mains.antt =====
-- Messages of the general queue reach the processes they are for (the loops of client.py and server.py).
use lvpn.Prelude.{Bool, true, false, List, [], ◌∷◌, ◌++◌, select, if◌then◌else◌}
use lvpn.Messages.{
  Message, Process, gui, proxy, wallet, daemon, http, exit, connect, disconnect, connect_info, pay,
  restore_wallet, create_wallet, paid, unpaid, wallet_error, gui_popup, target, all_processes,
  the_wallet, the_proxy, the_gui,
}
use lvpn.Messages.Loop.{put_all}

-- The client's processes with a queue, of which the web interface always runs.
unfoldable pub started : Bool → Bool → Bool → List Process
started run_gui run_proxy run_wallet =
    (if run_gui then gui ∷ [] else [])
    ++ (if run_proxy then proxy ∷ [] else [])
    ++ (if run_wallet then wallet ∷ daemon ∷ [] else [])
    ++ http ∷ []

module _ {D M : Type 0} where
  -- What server.py calls known: messages for all processes and for the wallet.
  unfoldable pub is_for_server : Message D M → Bool
  unfolding target
  is_for_server msg = elim (target msg) [
    | all_processes ↦ true
    | the_wallet ↦ true
    | the_proxy ↦ false
    | the_gui ↦ false
  ]

  -- What concerns a process: its own commands, and for the client's all that is said to everyone.
  unfoldable pub concerns : Process → Message D M → Bool
  concerns gui (gui_popup _) = true
  concerns proxy (connect _) = true
  concerns proxy (disconnect _) = true
  concerns proxy (connect_info _) = true
  concerns wallet (pay _) = true
  concerns wallet (restore_wallet _) = true
  concerns wallet (create_wallet _) = true
  concerns p exit = true
  concerns p (paid _) = true
  concerns p (unpaid _) = true
  concerns p (wallet_error _) = true
  concerns p _ = false

  -- Each message, for each running process that it concerns.
  unfoldable pub handed_out : List Process → List (Message D M) → List (Process × Message D M)
  handed_out running [] = []
  handed_out running (msg ∷ msgs) =
      put_all (select (λ p. concerns p msg) running) msg ++ handed_out running msgs
