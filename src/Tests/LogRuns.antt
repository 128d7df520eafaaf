-- ===== src/Tests/LogRuns.antt =====
-- The theorems on the log, applied to runs of it.
use raft_ebpf.Prelude.{ℕ, ◌≡◌, [], ok, number_eq, text_eq}
use raft_ebpf.RaftLog.{new, entry_at}
use raft_ebpf.RaftLog.Recovery.{new-recovers}
use raft_ebpf.StateMachine.{StateMachine}
use raft_ebpf.Tests.Libraries.{bounded, unary}
use raft_ebpf.Tests.Log.{two, two-IsDurable}

new-recovers_example :
    let (r, again) = new two.disk in
    (r ≡ ok tt)
    × ((k : ℕ) → entry_at again k ≡ entry_at two k)
    × (again.last_index ≡ two.last_index)
    × (again.persistent_state ≡ two.persistent_state)
new-recovers_example = new-recovers two two-IsDurable

abbrev applied_two : StateMachine
applied_two = record { pairs = []; last_applied = 2 }
