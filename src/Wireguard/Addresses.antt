-- ===== src/Wireguard/Addresses.antt =====
-- `WGServerService.find_free_ip` (server/wg_service.py), with what it uses of Python's `ipaddress`.
pub mod Free
use Prim.Native.Char.{code}
use lvpn.Prelude.{
  ℕ, zero, suc, ◌+◌, ◌-◌, ◌*◌, ◌^◌, ◌%◌, String, Bool, true, false, Option, none, some, List, [],
  ◌∷◌, ◌++◌, not, ◌&&◌, ◌||◌, any, ◌==◌, ltb, leb, str_eq, if◌then◌else◌,
}
use lvpn.Prelude.Text.{split, has}
use lvpn.Python.{
  Exec, Result, ok, err, pure, lift, or_raise, and_then, type_error, value_error, attribute_error,
  ◌>>=◌,
}
use lvpn.Vdp.Objects.{Gate, WgGate, gate_id}
use lvpn.Session.World.{World, Registry}
use lvpn.Wireguard.Engine.{get_interface_name}
use lvpn.Wireguard.Dump.{Peer, Dump, gather_wg_data}

-- A network of the fourth version by its first address and its prefix length. No address of the
-- sixth version lies in a network of the fourth, so no more is kept of those.
pub data Network : Type 0 where
  v4 : ℕ → ℕ → Network
  v6 : Network

pub read_digits : String → ℕ → Option ℕ
read_digits String.[] acc = some acc
read_digits (String.◌∷◌ c s) acc =
    let rest = read_digits s (acc * 10 + (code c - b'0')) in
    if leb b'0' (code c) && leb (code c) b'9' then rest else none

-- Digits that do not begin with a needless zero, and a number that is not too large.
read_number : ℕ → String → Option ℕ
unfolding read_digits
read_number most String.[] = none
read_number most (String.◌∷◌ c s) =
    if code c == b'0' && not (str_eq s "") then none else elim (read_digits (String.◌∷◌ c s) 0) [
      | none ↦ none
      | some n ↦ if leb n most then some n else none
    ]

read_octets : List String → ℕ → Option ℕ
unfolding read_number
read_octets [] acc = some acc
read_octets (s ∷ ss) acc = elim (read_number 255 s) [
  | none ↦ none
  | some n ↦ read_octets ss (acc * 256 + n)
]

read_address : List String → Option ℕ
unfolding read_octets
read_address (a ∷ b ∷ c ∷ d ∷ []) = read_octets (a ∷ b ∷ c ∷ d ∷ []) 0
read_address _ = none

-- Bits behind the prefix make it no network.
network_of : Option ℕ → Option ℕ → Option Network
network_of (some address) (some prefix) =
    if address % 2 ^ (32 - prefix) == 0 then some (v4 address prefix) else none
network_of _ _ = none

read_v4 : List String → Option Network
unfolding network_of read_address read_number
read_v4 (address ∷ []) = network_of (read_address (split b'.' address)) (some 32)
read_v4 (address ∷ prefix ∷ []) =
    network_of (read_address (split b'.' address)) (read_number 32 prefix)
read_v4 _ = none

-- `ipaddress.ip_network(text)`; `none` is a `ValueError`. What has a colon is taken to be a
-- well-formed network of the sixth version, as `wg` prints them.
unfoldable pub ip_network : String → Option Network
unfolding read_v4
ip_network text = if has b':' text then some v6 else read_v4 (split b'/' text)

abbrev pub network_size : WgGate → ℕ
network_size wg = 2 ^ (32 - wg.prefixlen)

abbrev pub broadcast : WgGate → ℕ
broadcast wg = wg.ipv4_network + network_size wg - 1

-- `ip in gwnet`
abbrev pub in_network : WgGate → ℕ → Bool
in_network wg ip = leb wg.ipv4_network ip && ltb ip (wg.ipv4_network + network_size wg)

-- The address that one entry of `allowed_ips` takes.
pub taken_by : WgGate → Network → List ℕ
taken_by wg v6 = []
taken_by wg (v4 address prefix) = if prefix == 32 && in_network wg address then address ∷ [] else []

pub and_taken : WgGate → Option Network → Result (List ℕ) → Result (List ℕ)
unfolding taken_by
and_taken wg none rest = err value_error
and_taken wg (some network) rest = and_then rest (λ ips. ok (taken_by wg network ++ ips))

pub taken_in : WgGate → List String → Result (List ℕ)
unfolding and_taken
taken_in wg [] = ok []
taken_in wg (text ∷ texts) = and_taken wg (ip_network text) (taken_in wg texts)

-- A peer without allowed addresses has `None`, which cannot be split.
pub taken_by_peer : WgGate → Option String → Result (List ℕ)
unfolding taken_in
taken_by_peer wg none = err attribute_error
taken_by_peer wg (some texts) = taken_in wg (split b',' texts)

pub find_taken : WgGate → List (String × Peer) → Result (List ℕ)
unfolding taken_by_peer
find_taken wg [] = ok []
find_taken wg ((_, p) ∷ ps) =
    and_then (taken_by_peer wg p.allowed_ips)
      (λ taken. and_then (find_taken wg ps) (λ rest. ok (taken ++ rest)))

abbrev pub is_reserved : WgGate → ℕ → Bool
is_reserved wg ip = ip == wg.ipv4_gateway || ip == wg.ipv4_network || ip == broadcast wg

abbrev pub contains : ℕ → List ℕ → Bool
contains ip ips = any (λ x. x == ip) ips

-- `for ip in gwnet`, from an address on.
pub scan : WgGate → List ℕ → ℕ → ℕ → Option ℕ
scan wg taken zero ip = none
scan wg taken (suc n) ip =
    let rest = scan wg taken n (ip + 1) in
    if is_reserved wg ip || contains ip taken then rest else some ip

unfoldable pub free_address : WgGate → List (String × Peer) → Result (Option ℕ)
unfolding find_taken scan
free_address wg peers =
    and_then (find_taken wg peers) (λ taken. ok (scan wg taken (network_size wg) wg.ipv4_network))

module _ {A : Type 0} where
  unfoldable pub find_free_ip : Registry A → Gate A → Exec (World A) (Option ℕ)
  unfolding free_address
  find_free_ip reg gate = do
    iface ← lift (get_interface_name reg (gate_id gate))
    gathered ← gather_wg_data reg iface
    wg ← or_raise gate.wg_data type_error
    lift (free_address wg gathered.peers)
