-- ===== src/Daemon/Start.antt =====
-- `RaftNode::new` of raft/src/node.rs, and the reads that the timers use.
use raft_ebpf.Prelude.{
  ℕ, ◌-◌, ◌*◌, ◌≤◌, ◌<◌, String, text_eq, false, Option, none, some, List, [], ◌∷◌, Result, ok, err,
  blocked, ◌≡◌, map_option,
}
use raft_ebpf.HashMap.{HashMap, insert}
use raft_ebpf.Common.{Heapless, PeerInfo, new_peer, follower}
use raft_ebpf.StateMachine
use raft_ebpf.RaftLog
use raft_ebpf.RaftLog.{RaftLog}
use raft_ebpf.RaftLog.Files.{Disk}
use raft_ebpf.RaftLog.Format.{Json}
use raft_ebpf.Node.State.{RaftNode}
use raft_ebpf.Daemon.Config.{Config, PeerConfig}

module _ ⦃h : Heapless⦄ where
  -- `for peer in &config.peers`
  abbrev pub add_peers : List PeerConfig → HashMap String PeerInfo → HashMap String PeerInfo
  add_peers [] m = m
  add_peers (peer ∷ rest) m = add_peers rest (insert m peer.id (new_peer peer.id peer.address))

  -- the fields of a new node; `now` is what `Instant::now` reads
  abbrev pub fresh_node : Config → ℕ → RaftLog → RaftNode
  fresh_node config now log = record {
    node_id = config.server.node_id;
    role = follower;
    log = log;
    log_held = false;
    state_machine = StateMachine.new;
    commit_index = 0;
    last_applied = 0;
    leader_id = none;
    peers = add_peers config.peers [];
    next_index = [];
    match_index = [];
    votes_received = [];
    last_heartbeat = now;
    clock = now;
    outgoing = [];
    pending_requests = [];
    replies = [];
  }

module _ ⦃h : Heapless⦄ ⦃j : Json⦄ where
  abbrev pub opened : Config → ℕ → Result (Unit {0}) × RaftLog → Result RaftNode
  opened config now (ok u, log) = ok (fresh_node config now log)
  opened config now (err e, log) = err e
  opened config now (blocked, log) = blocked

  -- `RaftNode::new`, over the files of its data directory
  unfoldable pub new_node : Config → ℕ → Disk → Result RaftNode
  unfolding RaftLog.new
  new_node config now disk = opened config now (RaftLog.new disk)

-- `rand::thread_rng().gen_range(min..=max)`, one value for each draw, and `none` where it panics.
pub record Rng : Type 0 where
  pub gen_range : ℕ → ℕ → ℕ → Option ℕ
  pub gen_range_in :
      (draw low high : ℕ)
      → low ≤ high
      → (t : ℕ) × (gen_range draw low high ≡ some t) × (low ≤ t) × (t ≤ high)
  pub gen_range_empty : (draw low high : ℕ) → high < low → gen_range draw low high ≡ none

-- `Duration::from_millis`; a duration is a number of nanoseconds
abbrev pub from_millis : ℕ → ℕ
from_millis ms = ms * 1000000

abbrev pub election_timeout : ⦃r : Rng⦄ → Config → ℕ → Option ℕ
election_timeout ⦃r⦄ config draw =
    map_option from_millis
      (r.gen_range draw config.timing.election_timeout_min_ms config.timing.election_timeout_max_ms)

abbrev pub heartbeat_interval : Config → ℕ
heartbeat_interval config = from_millis config.timing.heartbeat_interval_ms

-- `elapsed` is 0 where the clock is not ahead
abbrev pub time_since_heartbeat : RaftNode → ℕ
time_since_heartbeat n = n.clock - n.last_heartbeat
