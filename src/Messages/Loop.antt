-- ===== src/Messages/Loop.antt =====
-- The main loops of client.py and server.py: the children are watched, and one message is passed on in
-- each round.
pub mod Delivery
pub mod Mains
use lvpn.Prelude.{Bool, true, false, List, [], ◌∷◌, ◌++◌, map, length, ◌||◌, if◌then◌else◌}
use lvpn.Messages.{
  Message, Process, gui, proxy, wallet, daemon, exit, disconnect, Routed, server_route,
  client_route,
}

-- What a round meets: whether it finds a child that has ended (or is interrupted), and the messages that
-- are put into the queue before it looks there.
pub record Round (D M : Type 0) : Type 0 where
  pub stopped : Bool
  pub arriving : List (Message D M)

-- The general queue, and what was put into the queues of the processes, in order.
pub record Mail (D M : Type 0) : Type 0 where
  pub queue : List (Message D M)
  pub sent : List (Process × Message D M)

module _ {D M : Type 0} where
  -- `put` of one message into the queues of some processes
  abbrev pub put_all : List Process → Message D M → List (Process × Message D M)
  put_all ps msg = map (λ p. (p, msg)) ps

  -- What the client says to its children when one of them has ended.
  pub farewell : Bool → List (Process × Message D M)
  farewell stopped = if stopped then put_all (gui ∷ wallet ∷ daemon ∷ []) exit else []

  module _ (route : Message D M → Routed) where
    -- One message of the queue, and whether it ends the loop.
    pub take : List (Message D M) → List (Process × Message D M) → Mail D M × Bool
    take [] sent = (record { queue = []; sent = sent }, false)
    take (msg ∷ msgs) sent = (
      record { queue = msgs; sent = sent ++ put_all (route msg).processes msg },
      (route msg).ends,
    )

    -- A round after a child has ended is still finished.
    pub turn : (Bool → List (Process × Message D M)) → Round D M → Mail D M → Mail D M × Bool
    unfolding take
    turn parting r m =
        let (after, ends) = take (m.queue ++ r.arriving) (m.sent ++ parting r.stopped) in
        (after, r.stopped || ends)

    -- `while not should_exit`, and whether the loop has ended.
    pub main_loop :
        (Bool → List (Process × Message D M)) → List (Round D M) → Mail D M → Mail D M × Bool
    unfolding turn
    main_loop parting [] m = (m, false)
    main_loop parting (r ∷ rs) m =
        let (after, ends) = turn parting r m in
        let rest = main_loop parting rs after in if ends then (after, true) else rest

  unfoldable pub server_loop : Bool → Bool → List (Round D M) → Mail D M → Mail D M × Bool
  unfolding main_loop
  server_loop has_wallet has_stripe rs m =
      main_loop (server_route has_wallet has_stripe) (λ _. []) rs m

  unfoldable pub client_loop : Bool → Bool → Bool → List (Round D M) → Mail D M → Mail D M × Bool
  unfolding main_loop farewell
  client_loop run_gui run_proxy run_wallet rs m =
      main_loop (client_route run_gui run_proxy run_wallet) farewell rs m

  -- After its loop the client has all connections ended and the proxy stopped.
  pub stop_connections : List D → Mail D M → Mail D M
  stop_connections ids m = record m {
    sent = m.sent ++ map (λ d. (proxy, disconnect d)) ids ++ (proxy, exit) ∷ [];
  }
