-- ===== src/Client/Tunnel/Joining/Start.antt =====
-- The start of the client's service for a gate as a whole (client/wg_service.py).
use lvpn.Prelude.{String, ◌≡◌, true, Option, some, List, ◌++◌}
use lvpn.Python.{Result, ok, err}
use lvpn.Money.{Money}
use lvpn.Vdp.Objects.{Gate, gate_id}
use lvpn.Session.Data.{Session}
use lvpn.Session.World.{Registry}
use lvpn.Wireguard.Engine.{get_interface_name}
use lvpn.Wireguard.Interface.{Templates, Machine, Tunnels, gather}
use lvpn.Wireguard.Dump.{Interface, Dump}
use lvpn.Client.Tunnel.Joining.{Managers, Note, Service, set_up}
use lvpn.Client.Tunnel.Joining.Asked.{AnswersAll, Settled}

module _ {A : Type 0} ⦃money : Money A⦄ (reg : Registry A) (t : Templates) (m : Machine)
    (managers : Managers A) where
  -- The interface that is read, once it has been set up, by the name that the gate has here.
  abbrev pub IsRead : Gate A → Session A → Tunnels A → Interface → Type 0
  IsRead gate before s i =
      (iface : String) × (u : Tunnels A) × (v : Tunnels A) × (d : Dump) × (get_interface_name reg
          (gate_id gate)
        ≡ ok iface)
      × ((set_up reg t m managers iface before s).1 ≡ u)
      × (gather reg t m iface u ≡ (ok d, v))
      × (d.iface ≡ some i)

  abbrev pub Fitted : Gate A → Session A → Tunnels A → Session A → Type 0
  Fitted gate before s now =
      (i : Interface) × IsRead gate before s i × Settled reg t m managers before i now

  abbrev Fits :
      Gate A
      → Option (List String)
      → Session A
      → Tunnels A
      → Session A × List (Note A)
      → Tunnels A
      → Type 0
  Fits gate gates before s (now, notes) v =
      (reg.cfg.enable_wg ≡ true)
      × Fitted gate before s now
      × ((names : List String) × (gates ≡ some names)
          × AnswersAll reg t m managers now.sessionid names notes)

  -- How the start ends: with what is in the queue besides what was there.
  abbrev pub Started :
      Gate A
      → Option (List String)
      → Session A
      → Service A
      → Result (Session A) × Service A
      → Type 0
  Started gate gates before v (err e, w) = w.queue ≡ v.queue
  Started gate gates before v (ok now, w) =
      (notes : List (Note A)) × (w.queue ≡ v.queue ++ notes)
      × (reg.cfg.enable_wg ≡ true)
      × Fitted gate before v.tunnels now
      × ((names : List String) × (gates ≡ some names)
          × AnswersAll reg t m managers now.sessionid names notes)
