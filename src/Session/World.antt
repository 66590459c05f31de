-- ===== src/Session/World.antt =====
-- What a session's methods read and write outside the session: the clock, random tokens, the
-- table `sessions` (lib/db.py), the commands that are run, and the registry (lib/registry.py)
-- with the options, the VPN description and the host.
use lvpn.Prelude.{ℕ, ◌+◌, String, Bool, Option, List, [], ◌∷◌, ◌++◌}
use lvpn.Prelude.Int.{ℤ}
use lvpn.Python.{Exec, ok}
use lvpn.Vdp.Objects.{Gate, Space, Forced}
use lvpn.Session.Data.{SessionData, Price}

-- What `parent` is stored as: without a parent the statement has the word `False`.
pub data SqlParent : Type 0 where
  sql_text : String → SqlParent
  sql_false : SqlParent
  sql_null : SqlParent

-- A row of the table `sessions`.
pub record Row (A : Type 0) : Type 0 where
  pub id : String
  pub data_of : SessionData A
  pub activated : ℕ
  pub created : ℕ
  pub expires : ℕ
  pub paymentid : String
  pub paid : Bool
  pub gateid : String
  pub spaceid : String
  pub parent : SqlParent
  pub price : A
  pub deleted : Bool

-- The commands and messages that leave the process, in order.
pub data Effect (A : Type 0) : Type 0 where
  -- `ssh-keygen` twice: a key pair and its certificate for so many days
  issue_ssh : String → String → ℤ → Effect A
  issue_certificate : String → ℤ → Effect A
  -- `wg set` on an interface: a peer's key with its allowed addresses and its endpoint
  add_peer : String → String → Option ℕ × ℕ → Option String → Effect A
  remove_peer : String → String → Effect A
  wg_genpsk : Effect A
  activate_on_client : String → Effect A
  deactivate_on_client : String → Effect A
  run_hook : String → String → Effect A
  -- `Wallet/Pay` with the payments and the payment id
  pay : List (String × Price A) → String → Effect A

pub record World (A : Type 0) : Type 0 where
  -- the time of the last reading, in ticks, and how far the clock is ahead at the nth reading
  pub clock : ℕ
  pub delays : ℕ → ℕ
  pub readings : ℕ
  -- the nth result of `secrets.token_hex`, at a number of bytes
  pub tokens : ℕ → ℕ → String
  pub drawn : ℕ
  -- the nth result of `random.randint`, as a distance from its lower bound, before it is reduced
  pub randoms : ℕ → ℕ
  pub rows : List (Row A)
  pub effects : List (Effect A)

-- The options that sessions read. The client alone defines the first two.
pub record Config : Type 0 where
  pub free_session_days : Option ℕ
  pub auto_pay_days : Option ℕ
  pub is_client : Bool
  pub is_server : Bool
  pub enable_wg : Bool
  -- `wg_map_device`, its entries as written
  pub wg_map_device : List String
  pub unpaid_expiry : ℕ
  -- `contributions`, split at `,` and then at `/`; empty if it is not set
  pub contributions : List (List String)
  pub on_session_activation : Option String
  pub on_session_deactivation : Option String
  pub max_free_session_days : ℕ
  pub max_free_wg_handshake_timeout : ℕ
  pub forced : Forced

-- What the programs and libraries that the code calls answer; `none` is an exception.
pub record Host : Type 0 where
  pub ssh_credentials : String → Option (String × String)
  pub certificate : String → Option (String × String)
  pub random_free_port : Option ℕ
  -- what `wg show ... dump` prints for an interface
  pub wg_dump : String → Option String
  pub wg_genpsk_key : Option String
  -- the first 8 digits of the SHA-1 hash
  pub sha1_prefix : String → String
  pub wg_accepts_peer : String → Bool
  pub wg_removes_peer : String → Bool
  pub hook_starts : String → Bool

pub record Registry (A : Type 0) : Type 0 where
  pub cfg : Config
  pub get_gate : String → Option (Gate A)
  pub get_space : String → Option (Space A)
  pub host : Host

module _ {A : Type 0} where
  -- `time.time()`: the clock never runs backwards.
  abbrev pub time_time : Exec (World A) ℕ
  time_time w =
      let now = w.clock + w.delays w.readings in
      (ok now, record w { clock = now; readings = w.readings + 1 })

  -- `secrets.token_hex`
  abbrev pub token_hex : ℕ → Exec (World A) String
  token_hex bytes w = (ok (w.tokens w.drawn bytes), record w { drawn = w.drawn + 1 })

  abbrev pub emit : Effect A → Exec (World A) (Unit {0})
  emit e w = (ok tt, record w { effects = w.effects ++ e ∷ [] })
