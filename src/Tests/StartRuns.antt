-- ===== src/Tests/StartRuns.antt =====
-- The theorems on the start of the daemon, applied to a configuration of two nodes.
use raft_ebpf.Prelude.{some, text_eq, [], ◌∷◌, ok, ◌≡◌, refl}
use raft_ebpf.HashMap.{get}
use raft_ebpf.Common.{MessageEnvelope, leader, new_peer, new_envelope, request_vote_response}
use raft_ebpf.RaftLog
use raft_ebpf.RaftLog.Files.{empty_disk}
use raft_ebpf.Ipc.Requests.{timed_out, join, process_request}
use raft_ebpf.Network.Outgoing.{send_outgoing}
use raft_ebpf.Network.Unaddressed.{IsUnknown}
use raft_ebpf.Daemon.Start.{fresh_node, new_node}
use raft_ebpf.Daemon.Boot.{Started, new_manager, register_peers, start_daemon}
use raft_ebpf.Daemon.Addresses.{Agree, start_daemon-Agree, join-IsUnknown}
use raft_ebpf.Tests.Libraries.{bounded, unary}
use raft_ebpf.Tests.Wires.{answers}
use raft_ebpf.Tests.Log.{start}
use raft_ebpf.Tests.Nodes.{node, granted}
use raft_ebpf.Tests.IpcRuns.{raw, dots}
use raft_ebpf.Tests.DaemonRuns.{config_a}

-- the first start of the daemon
abbrev booted : Started
booted = record {
  node = fresh_node config_a 9 start;
  network_manager = (register_peers config_a.peers (new_manager [])).1;
}

first_start : start_daemon config_a 9 empty_disk [] ≡ ok booted
unfolding start_daemon new_node RaftLog.new
first_start = refl

start_daemon-Agree_example : Agree booted.node.peers booted.network_manager.peer_addresses
start_daemon-Agree_example = start_daemon-Agree config_a 9 empty_disk [] booted first_start

abbrev to_d : MessageEnvelope
to_d = new_envelope "a" "d" (request_vote_response granted)

join-IsUnknown_example :
    (get (process_request 7 timed_out 5 (join "d" "d:1") (node leader)).1.peers "d"
      ≡ some (new_peer "d" "d:1"))
    × IsUnknown "d" (send_outgoing (to_d ∷ to_d ∷ []) booted.network_manager).1
join-IsUnknown_example =
    join-IsUnknown config_a 9 empty_disk [] booted 7 5 timed_out "d" "d:1" (node leader)
      (to_d ∷ to_d ∷ []) first_start refl
