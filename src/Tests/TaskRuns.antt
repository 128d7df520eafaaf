-- ===== src/Tests/TaskRuns.antt =====
-- The theorems on a short election and on tasks that take turns, applied to runs.
use raft_ebpf.Prelude.{[], ◌∷◌, ok, ◌≡◌, refl, arith}
use raft_ebpf.Common.{follower, leader, new_peer}
use raft_ebpf.RaftLog
use raft_ebpf.RaftLog.{current_term}
use raft_ebpf.Node.State.{RaftNode}
use raft_ebpf.Node.Elect.{start_election, handle_request_vote_response}
use raft_ebpf.Node.Minority.{single_vote-leads}
use raft_ebpf.Node.Locks.{run, both}
use raft_ebpf.Node.Deadlock.{in_turn, meeting, status_left, apply_left, get_status-deadlocks}
use raft_ebpf.Tests.Libraries.{bounded, unary}
use raft_ebpf.Tests.Log.{two-IsDurable}
use raft_ebpf.Tests.Nodes.{node, granted}

-- a node of five, with a vote that was granted in an older term
abbrev fifth : RaftNode
fifth = record (node follower) {
  peers =
      ("b", new_peer "b" "b:1")
      ∷ ("c", new_peer "c" "c:1")
      ∷ ("d", new_peer "d" "d:1")
      ∷ ("e", new_peer "e" "e:1")
      ∷ [];
}

single_vote-leads_example :
    let n' = (start_election fifth).1 in
    let (r, n'') = handle_request_vote_response "b" granted n' in
    (r ≡ ok tt)
    × (n''.role ≡ leader)
    × (current_term n''.log ≡ 1)
    × (n''.votes_received ≡ "a" ∷ "b" ∷ [])
unfolding RaftLog.new RaftLog.append_entries
single_vote-leads_example =
    single_vote-leads "b" granted fifth refl (omega arith) refl (omega arith) two-IsDurable refl
      (omega arith) refl

-- no other tasks, and tasks that change places over and over
get_status-deadlocks_example :
    let t = run in_turn (both (λ k. [])) in
    let s = run (0 ∷ 1 ∷ 2 ∷ 1 ∷ 0 ∷ []) (run meeting (both (λ k. []))) in
    (t.guards ≡ [])
    × (t.rest 0 ≡ [])
    × (t.rest 1 ≡ [])
    × (s.rest 0 ≡ status_left)
    × (s.rest 1 ≡ apply_left)
get_status-deadlocks_example = get_status-deadlocks (λ k. []) (0 ∷ 1 ∷ 2 ∷ 1 ∷ 0 ∷ [])
