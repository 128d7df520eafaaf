-- ===== src/Daemon/Config.antt =====
-- raft/src/config.rs. The crate `toml` is an interface: it gives a table in which a key can be
-- missing, and the `#[serde(default)]` attributes of the source say what stands for such a key.
use raft_ebpf.Prelude.{
  ℕ, String, ◌+++◌, Bool, true, false, Option, none, some, List, [], ◌∷◌, io, toml, All, Result, ok,
  err, unwrap_or,
}
use raft_ebpf.Ipc.Requests.{Texts}

pub record ServerConfig : Type 0 where
  pub node_id : String
  pub listen_addr : String
  pub data_dir : String
  pub log_level : String

pub record TimingConfig : Type 0 where
  pub heartbeat_interval_ms : ℕ
  pub election_timeout_min_ms : ℕ
  pub election_timeout_max_ms : ℕ
  pub rpc_timeout_ms : ℕ

pub record PeerConfig : Type 0 where
  pub id : String
  pub address : String

pub record EbpfConfig : Type 0 where
  pub enabled : Bool
  pub interface : String

pub record Config : Type 0 where
  pub server : ServerConfig
  pub timing : TimingConfig
  pub peers : List PeerConfig
  pub ebpf : EbpfConfig

abbrev default_data_dir : String
default_data_dir = "/var/lib/raft"

abbrev default_log_level : String
default_log_level = "info"

abbrev default_heartbeat_interval : ℕ
default_heartbeat_interval = 50

abbrev default_election_timeout_min : ℕ
default_election_timeout_min = 150

abbrev default_election_timeout_max : ℕ
default_election_timeout_max = 300

abbrev default_rpc_timeout : ℕ
default_rpc_timeout = 1000

-- `TimingConfig::default`
abbrev pub default_timing : TimingConfig
default_timing = record {
  heartbeat_interval_ms = default_heartbeat_interval;
  election_timeout_min_ms = default_election_timeout_min;
  election_timeout_max_ms = default_election_timeout_max;
  rpc_timeout_ms = default_rpc_timeout;
}

abbrev default_ebpf_enabled : Bool
default_ebpf_enabled = true

abbrev default_interface : String
default_interface = "eth0"

-- `EbpfConfig::default`
abbrev pub default_ebpf : EbpfConfig
default_ebpf = record { enabled = default_ebpf_enabled; interface = default_interface }

-- what a TOML file says, its keys each there or not
pub record ServerTable : Type 0 where
  pub node_id : Option String
  pub listen_addr : Option String
  pub data_dir : Option String
  pub log_level : Option String

pub record TimingTable : Type 0 where
  pub heartbeat_interval_ms : Option ℕ
  pub election_timeout_min_ms : Option ℕ
  pub election_timeout_max_ms : Option ℕ
  pub rpc_timeout_ms : Option ℕ

pub record PeerTable : Type 0 where
  pub id : Option String
  pub address : Option String

pub record EbpfTable : Type 0 where
  pub enabled : Option Bool
  pub interface : Option String

pub record ConfigTable : Type 0 where
  pub server : Option ServerTable
  pub timing : Option TimingTable
  pub peers : Option (List PeerTable)
  pub ebpf : Option EbpfTable

-- `toml::from_str`, up to the fields that the types of the source ask for
pub record Toml : Type 0 where
  pub parse : String → Option ConfigTable

-- the derived `Deserialize`: a key without a default has to be there
abbrev pub server_of : Option String → Option String → ServerTable → Option ServerConfig
server_of (some node_id) (some listen_addr) t = some (record {
  node_id = node_id;
  listen_addr = listen_addr;
  data_dir = unwrap_or t.data_dir default_data_dir;
  log_level = unwrap_or t.log_level default_log_level;
})
server_of _ _ t = none

abbrev pub read_server : Option ServerTable → Option ServerConfig
read_server none = none
read_server (some t) = server_of t.node_id t.listen_addr t

abbrev pub peer_of : Option String → Option String → Option PeerConfig
peer_of (some id) (some address) = some (record { id = id; address = address })
peer_of _ _ = none

abbrev pub cons_peer : Option PeerConfig → Option (List PeerConfig) → Option (List PeerConfig)
cons_peer (some p) (some ps) = some (p ∷ ps)
cons_peer _ _ = none

abbrev pub read_peers : List PeerTable → Option (List PeerConfig)
read_peers [] = some []
read_peers (t ∷ ts) = cons_peer (peer_of t.id t.address) (read_peers ts)

abbrev pub read_timing : Option TimingTable → TimingConfig
read_timing none = default_timing
read_timing (some t) = record {
  heartbeat_interval_ms = unwrap_or t.heartbeat_interval_ms default_heartbeat_interval;
  election_timeout_min_ms = unwrap_or t.election_timeout_min_ms default_election_timeout_min;
  election_timeout_max_ms = unwrap_or t.election_timeout_max_ms default_election_timeout_max;
  rpc_timeout_ms = unwrap_or t.rpc_timeout_ms default_rpc_timeout;
}

abbrev pub read_ebpf : Option EbpfTable → EbpfConfig
read_ebpf none = default_ebpf
read_ebpf (some t) = record {
  enabled = unwrap_or t.enabled default_ebpf_enabled;
  interface = unwrap_or t.interface default_interface;
}

abbrev pub config_of :
    Option ServerConfig → Option (List PeerConfig) → TimingConfig → EbpfConfig → Option Config
config_of (some server) (some peers) timing ebpf =
    some (record { server = server; timing = timing; peers = peers; ebpf = ebpf })
config_of _ _ timing ebpf = none

abbrev pub read_config : Option ConfigTable → Option Config
read_config none = none
read_config (some t) =
    config_of (read_server t.server) (read_peers (unwrap_or t.peers [])) (read_timing t.timing)
      (read_ebpf t.ebpf)

abbrev pub loaded_config : Option Config → Result Config
loaded_config (some config) = ok config
loaded_config none = err toml

-- `Config::load`, over what reading the file gives
unfoldable pub load : ⦃t : Toml⦄ → Option String → Result Config
load none = err io
load ⦃t⦄ (some content) = loaded_config (read_config (t.parse content))

-- `Config::default_for_testing`
abbrev pub default_for_testing : ⦃x : Texts⦄ → String → ℕ → Config
default_for_testing ⦃x⦄ node_id port = record {
  server = record {
    node_id = node_id;
    listen_addr = "127.0.0.1:" +++ x.decimal port;
    data_dir = "/tmp/raft-" +++ node_id;
    log_level = "debug";
  };
  timing = default_timing;
  peers = [];
  ebpf = record { enabled = false; interface = "lo" };
}

-- the keys that have no default are there
abbrev pub HasBoth : Option String → Option String → Type 0
HasBoth (some a) (some b) = Unit
HasBoth _ _ = ⊥

abbrev pub IsCompleteServer : Option ServerTable → Type 0
IsCompleteServer none = ⊥
IsCompleteServer (some t) = HasBoth t.node_id t.listen_addr

abbrev pub IsComplete : ConfigTable → Type 0
IsComplete t =
    IsCompleteServer t.server
    × All (λ (p : PeerTable). HasBoth p.id p.address) (unwrap_or t.peers [])
