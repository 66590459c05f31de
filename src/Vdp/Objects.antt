-- ===== src/Vdp/Objects.antt =====
-- lib/vdpobject.py, lib/provider.py, lib/space.py and the accessors of lib/gate.py. The `_data`
-- dictionary of an object is a record, with an `Option` for a key that may be missing.
pub mod Freshness
use Prim.Native.String.{◌++◌ as text_append}
use lvpn.Prelude.{
  ℕ, ◌+◌, ◌*◌, String, Bool, true, false, ◌&&◌, not, Option, none, some, List, ltb, ◌==◌, any,
  str_eq, if◌then◌else◌,
}
use lvpn.Python.{Result, ok, err, key_error}
use lvpn.Money.{Money}
use lvpn.Clock.{whole_seconds, day}

-- The keys that `VDPObject` itself reads.
pub record Header (A : Type 0) : Type 0 where
  pub name : String
  pub revision : Option ℕ
  pub ttl : Option ℕ
  -- `price` with its `per-day`; missing if either is missing
  pub price : Option A
  pub internal : Option Bool
  pub manager_url : Option String

-- The options that this code reads: `force_manager_url` and `force_manager_wallet`.
pub record Forced : Type 0 where
  pub url : Option String
  pub wallet : Option String

pub record Provider (A : Type 0) : Type 0 where
  pub header : Header A
  pub providerid : String
  pub wallet : String
  pub is_local : Bool

pub data GateType : Type 0 where
  http_proxy socks_proxy daemon_rpc_proxy daemon_p2p_proxy ssh wg : GateType
  other : String → GateType

-- The `wg` entry of a gate. The network is its first address and its prefix length.
pub record WgGate : Type 0 where
  pub public_key : String
  pub endpoint : String
  pub ipv4_network : ℕ
  pub prefixlen : ℕ
  pub ipv4_gateway : ℕ
  -- the first address of `ipv6_network`, if the key is there
  pub ipv6_network : Option ℕ
  pub ipv6_gateway : Option ℕ
  pub use_psk : Bool

pub record Gate (A : Type 0) : Type 0 where
  pub header : Header A
  pub gateid : String
  pub provider : Provider A
  pub type : GateType
  pub spaces : List String
  pub replaces : Option String
  -- the `tls` flag of the entry named by the gate's type
  pub tls : Option Bool
  pub wg_data : Option WgGate
  -- `ssh.username`
  pub ssh_username : Option String
  pub is_local : Bool

pub record Space (A : Type 0) : Type 0 where
  pub header : Header A
  pub spaceid : String
  pub provider : Provider A
  pub ipv4_networks : List String
  pub ipv6_networks : List String
  pub dns_servers : List String
  pub is_local : Bool

abbrev pub is_wg : GateType → Bool
is_wg wg = true
is_wg _ = false

abbrev pub or_zero : Option ℕ → ℕ
or_zero none = 0
or_zero (some n) = n

module _ {A : Type 0} where
  -- `VDPObject.is_fresh`: the test `"revision" and "ttl" in data` looks for `ttl` only.
  unfoldable pub is_fresh : Header A → ℕ → Result Bool
  is_fresh h now = elim h.ttl [
    | none ↦ ok true
    | some ttl ↦ elim h.revision [
      | none ↦ err key_error
      | some revision ↦ ok (ltb (whole_seconds now) (revision + ttl))
    ]
  ]

  unfoldable pub set_as_fresh : Header A → ℕ → Header A
  set_as_fresh h now = record h { revision = some (whole_seconds now) }

  unfoldable pub get_revision : Header A → ℕ
  get_revision h = or_zero h.revision

  unfoldable pub get_ttl : Header A → ℕ
  get_ttl h = elim h.ttl [ none ↦ 30 * day | some ttl ↦ ttl ]

  -- Zero is false: an object with no revision, or with a `ttl` of 0, expires a month from now.
  unfoldable pub get_expiry : Header A → ℕ → ℕ
  unfolding get_revision get_ttl
  get_expiry h now =
      if not (get_revision h == 0) && not (get_ttl h == 0)
      then get_revision h + get_ttl h
      else whole_seconds now + 30 * day

  abbrev pub is_internal : Header A → Bool
  is_internal h = elim h.internal [ none ↦ false | some b ↦ b ]

  -- `VDPObject.get_price`
  abbrev pub get_price : ⦃m : Money A⦄ → Header A → A
  get_price ⦃m⦄ h = elim h.price [ none ↦ m.nothing | some p ↦ p ]

  -- `Provider.get_wallet`; `Space.get_wallet` and `Gateway.get_wallet` ask the provider.
  abbrev pub get_wallet : Forced → Provider A → String
  get_wallet f p = elim f.wallet [ none ↦ p.wallet | some w ↦ w ]

  -- `Provider.get_manager_url`
  pub provider_manager_url : Forced → Provider A → Result String
  provider_manager_url f p = elim f.url [
    | none ↦ elim p.header.manager_url [ none ↦ err key_error | some u ↦ ok u ]
    | some u ↦ ok u
  ]

  -- `VDPObject.get_manager_url`, which falls back to the provider.
  unfoldable pub get_manager_url : Forced → Header A → Provider A → Result String
  unfolding provider_manager_url
  get_manager_url f h p = elim f.url [
    | none ↦ elim h.manager_url [ none ↦ provider_manager_url f p | some u ↦ ok u ]
    | some u ↦ ok u
  ]

  -- `Gateway.get_id` and `Space.get_id`, behind the provider's id
  abbrev pub gate_id : Gate A → String
  gate_id g = text_append g.provider.providerid (text_append "." g.gateid)

  abbrev pub space_id : Space A → String
  space_id s = text_append s.provider.providerid (text_append "." s.spaceid)

  -- `Gateway.is_for_space`
  abbrev pub is_for_space : Gate A → String → Bool
  is_for_space g spaceid = any (λ s. str_eq s spaceid) g.spaces

  -- `Gateway.is_tls`
  abbrev pub is_tls : Gate A → Bool
  is_tls g = elim g.tls [ none ↦ true | some b ↦ b ]
