-- ===== src/Tests/DaemonRuns.antt =====
-- The theorems on the daemon, applied to a configuration and a run.
use raft_ebpf.Prelude.{
  map, ◌-◌, ℕ, ◌≤◌, ◌<◌, String, text_eq, number_eq, Option, none, some, [], ◌∷◌, ok, ltb,
  if◌then◌else◌, ◌↔◌, ◌≡◌, refl, arith,
}
use raft_ebpf.Common.{follower, candidate, append_entries, new_envelope, MessageEnvelope}
use raft_ebpf.StateMachine.{get_value}
use raft_ebpf.RaftLog.{
  new, voted_for, append_entries as log_append_entries, truncate_from, current_term, get_entries,
  entry_at,
}
use raft_ebpf.Node.State.{RaftNode}
use raft_ebpf.Node.Dispatch.{handle_message}
use raft_ebpf.RaftLog.Recovery.{IsDurable}
use raft_ebpf.Node.Stand.{asked, candidacy}
use raft_ebpf.Node.Quiet.{saved}
use raft_ebpf.Node.Advance.{Advances}
use raft_ebpf.Ipc.Requests.{join, timed_out, process_request}
use raft_ebpf.Daemon.Config.{
  Config, ConfigTable, ServerTable, PeerTable, Toml, load, default_timing, default_ebpf, IsComplete,
}
use raft_ebpf.Daemon.Start.{Rng, new_node}
use raft_ebpf.Daemon.Timers.{election_round}
use raft_ebpf.Daemon.Timing.{election_round-stands}
use raft_ebpf.Daemon.Loading.{load-IsComplete}
use raft_ebpf.Daemon.Sound.{Sound}
use raft_ebpf.Daemon.Restart.{new_node-restores}
use raft_ebpf.Daemon.Storing.{IsTrusted}
use raft_ebpf.Daemon.Runs.{arrive, election_timer, request, restart, Reach, here, next, Reach-Sound}
use raft_ebpf.Daemon.Votes.{Reach-Advances}
use raft_ebpf.Tests.Libraries.{bounded, unary}
use raft_ebpf.Tests.Log.{two-IsDurable, two-IsContiguous}
use raft_ebpf.Tests.Nodes.{node, replace_second}
use raft_ebpf.Tests.IpcRuns.{raw, dots}

-- always the lower bound
abbrev pub lowest : ℕ → ℕ → ℕ → Option ℕ
lowest draw low high = if ltb high low then none else some low

pub lowest_in :
    (draw low high : ℕ)
    → low ≤ high
    → (t : ℕ) × (lowest draw low high ≡ some t) × (low ≤ t) × (t ≤ high)
lowest_in draw low high le = (low, ground arith, omega arith, omega arith)

pub lowest_empty : (draw low high : ℕ) → high < low → lowest draw low high ≡ none
lowest_empty draw low high gt = ground arith

instance abbrev pub low_rng : Rng
low_rng = record { gen_range = lowest; gen_range_in = lowest_in; gen_range_empty = lowest_empty }

-- a file with a server and one peer
abbrev server_a : ServerTable
server_a = record {
  node_id = some "a";
  listen_addr = some "a:1";
  data_dir = none;
  log_level = none;
}

abbrev peer_b : PeerTable
peer_b = record { id = some "b"; address = some "b:1" }

abbrev table_a : ConfigTable
table_a = record { server = some server_a; timing = none; peers = some (peer_b ∷ []); ebpf = none }

instance abbrev one_file : Toml
one_file = record { parse = λ s. some table_a }

abbrev pub config_a : Config
config_a = record {
  server = record {
    node_id = "a";
    listen_addr = "a:1";
    data_dir = "/var/lib/raft";
    log_level = "info";
  };
  timing = default_timing;
  peers = record { id = "b"; address = "b:1" } ∷ [];
  ebpf = default_ebpf;
}

load_a : load (some "file") ≡ ok config_a
unfolding load
load_a = refl

load-IsComplete_example : ((c : Config) × (load (some "file") ≡ ok c)) ↔ (
    (content : String) × (t : ConfigTable) × (some "file" ≡ some content)
    × (one_file.parse content ≡ some t)
    × IsComplete t)
load-IsComplete_example = load-IsComplete (some "file")

election_round-stands_example :
    let n' = (election_round config_a 3 400000000 (node follower)).1 in
    (400000000 < 150000000 → n' ≡ record (node follower) { clock = 400000000 })
    × (300000000 ≤ 400000000
        → (n'.role ≡ candidate)
          × (current_term n'.log ≡ 1)
          × (voted_for n'.log ≡ some "a")
          × IsDurable n'.log
          × (n'.outgoing
              ≡ map (asked (candidacy 1 (node follower)) (node follower)) ("b" ∷ "c" ∷ [])))
    × (300000000 ≤ 400000000
        → 500000000 - 400000000 < 150000000
        → (election_round config_a 4 500000000 n').1 ≡ record n' { clock = 500000000 })
unfolding new log_append_entries
election_round-stands_example =
    election_round-stands config_a 3 400000000 4 500000000 (node follower) (omega arith) refl refl
      (omega arith) refl two-IsDurable

node-Sound : Sound (node follower)
unfolding get_entries get_value
node-Sound = record {
  durable = two-IsDurable;
  contiguous = two-IsContiguous;
  known = omega arith;
  behind = omega arith;
  in_step = refl;
  store = λ key. refl;
}

new_node-restores_example :
    (n' : RaftNode) × (new_node config_a 9 (node follower).log.disk ≡ ok n')
    × Sound n'
    × (n'.role ≡ follower)
    × (n'.commit_index ≡ 0)
    × (saved n' ≡ saved (node follower))
    × (n'.log.last_index ≡ (node follower).log.last_index)
    × ((k : ℕ) → entry_at n'.log k ≡ entry_at (node follower).log k)
new_node-restores_example = new_node-restores config_a 9 (node follower) node-Sound

-- A run: a request of the leader, a timeout, a peer that joins, and a restart.
abbrev from_leader : MessageEnvelope
from_leader = new_envelope "b" "a" (append_entries replace_second)

abbrev taken : RaftNode
taken = (handle_message from_leader (node follower)).1

abbrev stood : RaftNode
stood = (election_round config_a 3 400000000 taken).1

abbrev joined : RaftNode
joined = (process_request 7 timed_out 5 (join "d" "d:1") stood).1

replace_second-IsTrusted : IsTrusted replace_second (node follower).log (node follower).commit_index
replace_second-IsTrusted = record {
  counts = (refl, (refl, tt));
  fits = (omega arith, (omega arith, tt));
  agrees = ((λ low. absurd omega arith), ((λ low. absurd omega arith), tt));
}

taken_term : current_term taken.log ≡ 2
unfolding handle_message new log_append_entries truncate_from
taken_term = refl

stood_last : stood.log.last_index ≡ 3
unfolding election_round handle_message new log_append_entries truncate_from
stood_last = refl

taken_run : Reach config_a (node follower) taken
taken_run = next here (arrive (node follower) from_leader replace_second-IsTrusted)

stood_run : Reach config_a (node follower) stood
stood_run = next taken_run (election_timer taken 3 400000000 (omega (arith, taken_term)))

joined_run : Reach config_a (node follower) joined
joined_run =
    next stood_run (request stood 7 timed_out 5 (join "d" "d:1") (omega (arith, stood_last)))

joined-Sound : Sound joined
joined-Sound = Reach-Sound config_a node-Sound joined_run

abbrev restarted : RaftNode
restarted = (new_node-restores config_a 9 joined joined-Sound).0

restarted_run : Reach config_a (node follower) restarted
restarted_run =
    next joined_run
      (restart joined restarted 9 (new_node-restores config_a 9 joined joined-Sound).1)

Reach-Sound_example : Sound restarted
Reach-Sound_example = Reach-Sound config_a node-Sound restarted_run

Reach-Advances_example : Advances (saved (node follower)) (saved restarted)
Reach-Advances_example = Reach-Advances config_a node-Sound restarted_run
