-- ===== src/Tests/FreezeRuns.antt =====
-- Nodes that wait for ever or follow for ever, and what they are called for.
use raft_ebpf.Prelude.{[], ◌∷◌, List, some, ok, ◌≡◌, refl, arith}
use raft_ebpf.Common.{follower, append_entries, new_envelope}
use raft_ebpf.RaftLog
use raft_ebpf.RaftLog.{set_current_term}
use raft_ebpf.RaftLog.Files.{empty_disk}
use raft_ebpf.Node.State.{RaftNode}
use raft_ebpf.Node.Follow.{handle_append_entries}
use raft_ebpf.Ipc.Requests.{timed_out, join, propose_request}
use raft_ebpf.Daemon.Calls.{Call, message, election_timer, heartbeat_timer, request, call_each}
use raft_ebpf.Daemon.Config.{Config, default_timing}
use raft_ebpf.Daemon.Start.{fresh_node, new_node}
use raft_ebpf.Daemon.Idle.{disordered-follows}
use raft_ebpf.Daemon.Freezing.{stale_append-freezes}
use raft_ebpf.Tests.Libraries.{bounded, unary}
use raft_ebpf.Tests.Log.{start, two}
use raft_ebpf.Tests.Nodes.{node, replace_second, stale}
use raft_ebpf.Tests.IpcRuns.{raw, dots}
use raft_ebpf.Tests.DaemonRuns.{low_rng, config_a}

-- the follower at term 1
abbrev later : RaftNode
later = record (node follower) { log = (set_current_term 1 two).1 }

abbrev calls : List Call
calls =
    message (new_envelope "b" "a" (append_entries replace_second))
    ∷ election_timer 3 400000000
    ∷ heartbeat_timer 500000000
    ∷ request 7 timed_out 6 (join "d" "d:1")
    ∷ request 8 timed_out 7 (propose_request "a" (some "v"))
    ∷ []

stale_append-freezes_example :
    let n' = call_each config_a calls (handle_append_entries "b" stale later).1 in
    (n'.outgoing ≡ [])
    × (n'.log ≡ later.log)
    × (n'.role ≡ follower)
    × (n'.commit_index ≡ 0)
    × (n'.last_applied ≡ 0)
    × (n'.state_machine ≡ later.state_machine)
unfolding RaftLog.new RaftLog.append_entries set_current_term
stale_append-freezes_example =
    stale_append-freezes config_a "b" stale calls later refl (omega arith)

abbrev disordered : Config
disordered = record config_a { timing = record default_timing { election_timeout_max_ms = 100 } }

starts : new_node disordered 9 empty_disk ≡ ok (fresh_node disordered 9 start)
unfolding new_node RaftLog.new
starts = refl

disordered-follows_example :
    (call_each disordered calls (fresh_node disordered 9 start)).role ≡ follower
disordered-follows_example =
    disordered-follows disordered 9 empty_disk calls (fresh_node disordered 9 start) (omega arith)
      starts
