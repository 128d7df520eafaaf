-- ===== src/Node/Apply.antt =====
-- `apply_committed_entries`.
use raft_ebpf.Prelude.{
  ℕ, zero, suc, ◌+◌, ◌-◌, number_eq, Option, none, some, ltb, if◌then◌else◌, modify,
}
use raft_ebpf.Common.{LogEntry}
use raft_ebpf.StateMachine
use raft_ebpf.StateMachine.{StateMachine}
use raft_ebpf.RaftLog.{entry_at}
use raft_ebpf.Node.State.{RaftNode, Handler, with_log}

abbrev pub apply_found : Option LogEntry → StateMachine → StateMachine
apply_found none sm = sm
apply_found (some entry) sm = (StateMachine.apply entry sm).1

-- The body of the `while`: `last_applied` is below `commit_index` there, so `+= 1` does not wrap.
unfoldable pub apply_next : RaftNode → RaftNode
apply_next n = record n {
  last_applied = n.last_applied + 1;
  state_machine = apply_found (entry_at n.log (n.last_applied + 1)) n.state_machine;
}

-- `while *last_applied < commit_index`, with fuel
unfoldable pub apply_while : ℕ → ℕ → RaftNode → RaftNode
unfolding apply_next
apply_while zero commit_index n = n
apply_while (suc fuel) commit_index n =
    let rest = apply_while fuel commit_index (apply_next n) in
    if ltb n.last_applied commit_index then rest else n

-- The loop makes `commit_index - last_applied` rounds.
unfoldable pub apply_all : RaftNode → RaftNode
unfolding apply_while
apply_all n = apply_while (n.commit_index - n.last_applied) n.commit_index n

unfoldable pub apply_committed_entries : Handler (Unit {0})
unfolding apply_all
apply_committed_entries = with_log (modify apply_all)
