-- ===== src/Daemon/Restart.antt =====
-- A restart: `RaftNode::new` over the files that a node has left.
use raft_ebpf.Prelude.{ℕ, number_eq, text_eq, Result, ok, ◌≡◌, refl, ap, ◌∙◌, arith}
use raft_ebpf.Common.{Heapless, follower}
use raft_ebpf.StateMachine.{get_value}
use raft_ebpf.RaftLog
use raft_ebpf.RaftLog.{RaftLog, entry_at, get_entries}
use raft_ebpf.RaftLog.Format.{Json}
use raft_ebpf.RaftLog.Recovery.{IsDurable, new-recovers, new-IsDurable}
use raft_ebpf.RaftLog.Contiguous.{IsContiguous}
use raft_ebpf.Node.State.{RaftNode}
use raft_ebpf.Node.Quiet.{saved}
use raft_ebpf.Daemon.Config.{Config}
use raft_ebpf.Daemon.Start.{fresh_node, opened, new_node}
use raft_ebpf.Daemon.Sound.{Sound}

same_at-IsContiguous :
    (log again : RaftLog)
    → ((k : ℕ) → entry_at again k ≡ entry_at log k)
    → again.last_index ≡ log.last_index
    → IsContiguous log
    → IsContiguous again
same_at-IsContiguous log again same last c = record {
  no_zero = same 0 ∙ c.no_zero;
  present = λ k lo hi. let (e, at, named) = c.present k lo (omega arith) in (e, same k ∙ at, named);
  beyond = λ k hi. same k ∙ c.beyond k (omega arith);
}

module _ ⦃h : Heapless⦄ ⦃j : Json⦄ where
  new_node_lem :
      (config : Config) (now : ℕ) (log : RaftLog)
      → IsDurable log
      → new_node config now log.disk ≡ ok (fresh_node config now (RaftLog.new log.disk).1)
  unfolding new_node
  new_node_lem config now log d =
      ap (λ (r : Result (Unit {0})). opened config now (r, (RaftLog.new log.disk).1))
        (new-recovers log d).0

  fresh_node-Sound :
      (config : Config) (now : ℕ) (log : RaftLog)
      → IsDurable log
      → IsContiguous log
      → Sound (fresh_node config now log)
  unfolding get_entries get_value
  fresh_node-Sound config now log d c = record {
    durable = d;
    contiguous = c;
    known = omega arith;
    behind = omega arith;
    in_step = refl;
    store = λ key. refl;
  }

  -- A daemon that stops after any call and starts again over its files, where memory and files were
  -- in step: it starts without an error, as a follower with an empty store and nothing committed,
  -- with the same term, the same vote, the same last index and the same entry at every index; and
  -- its log is in step with the files again.
  pub new_node-restores :
      (config : Config) (now : ℕ) (n : RaftNode)
      → Sound n
      → (n' : RaftNode) × (new_node config now n.log.disk ≡ ok n')
        × Sound n'
        × (n'.role ≡ follower)
        × (n'.commit_index ≡ 0)
        × (saved n' ≡ saved n)
        × (n'.log.last_index ≡ n.log.last_index)
        × ((k : ℕ) → entry_at n'.log k ≡ entry_at n.log k)
  new_node-restores config now n s =
      let again = (RaftLog.new n.log.disk).1 in
      let (done, same, last, kept) = new-recovers n.log s.durable in
      (
        fresh_node config now again,
        new_node_lem config now n.log s.durable,
        fresh_node-Sound config now again (new-IsDurable n.log s.durable)
            (same_at-IsContiguous n.log again same last s.contiguous),
        refl,
        refl,
        kept,
        last,
        same,
      )
