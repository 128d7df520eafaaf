-- ===== src/Node/Applied.antt =====
-- `apply_committed_entries`: the loop ends, and what it has applied.
use raft_ebpf.Prelude.{
  ℕ, zero, suc, ◌+◌, ◌-◌, ◌≤◌, String, number_eq, true, false, ◌≡◌, refl, ap, ◌∙◌, Option, none,
  some, List, ok, lt→ltb, arith,
}
use raft_ebpf.Common.{LogEntry}
use raft_ebpf.StateMachine.{StateMachine, get_value}
use raft_ebpf.StateMachine.Semantics.{apply_entries, apply_entries-effects, effects}
use raft_ebpf.RaftLog.{entry_at, collect_entries, collect_entry, get_entries}
use raft_ebpf.RaftLog.Contiguous.{IsContiguous, get_entries_lem}
use raft_ebpf.Node.State.{RaftNode}
use raft_ebpf.Node.Apply.{apply_found, apply_next, apply_while, apply_all, apply_committed_entries}

apply_found_lem :
    (o : Option LogEntry) (es : List LogEntry) (sm : StateMachine)
    → apply_entries es (apply_found o sm) ≡ apply_entries (collect_entry o es) sm
unfolding apply_entries
apply_found_lem none es sm = refl
apply_found_lem (some e) es sm = refl

-- with fuel for each round, the loop has applied the entries up to the commit index
apply_while_lem :
    (rounds commit : ℕ) (n : RaftNode)
    → n.last_applied + rounds ≡ commit
    → apply_while rounds commit n ≡ record n {
      last_applied = commit;
      state_machine =
          apply_entries (collect_entries rounds (n.last_applied + 1) n.log.entries) n.state_machine;
    }
unfolding apply_while apply_next collect_entries apply_entries
apply_while_lem zero commit n e =
    let done : n.last_applied ≡ commit = omega arith in
    ap (λ (c : ℕ). record n { last_applied = c }) done
apply_while_lem (suc rounds) commit n e =
    let start = n.last_applied + 1 in
    rw (lt→ltb n.last_applied commit (omega arith)) (
      apply_while_lem rounds commit (apply_next n) (omega arith)
      ∙ ap (λ (sm : StateMachine). record n { last_applied = commit; state_machine = sm })
          (apply_found_lem (entry_at n.log start) (collect_entries rounds (start + 1) n.log.entries)
            n.state_machine))

-- what applying up to the commit index leaves behind
abbrev pub caught_up : RaftNode → RaftNode
caught_up n = record n {
  last_applied = n.commit_index;
  state_machine =
      apply_entries (get_entries (n.last_applied + 1) n.commit_index n.log) n.state_machine;
}

pub apply_all_lem : (n : RaftNode) → n.last_applied ≤ n.commit_index → apply_all n ≡ caught_up n
unfolding apply_all get_entries
apply_all_lem n behind =
    let e : n.commit_index + 1 - (n.last_applied + 1) ≡ n.commit_index - n.last_applied =
      omega arith in
    rw e (apply_while_lem (n.commit_index - n.last_applied) n.commit_index n (omega arith))

-- With the mutex free, the call returns. It has applied the entries of the log from the one after
-- the last applied to the commit index, in order, and it has changed nothing else.
pub apply_committed_entries_lem :
    (n : RaftNode)
    → n.log_held ≡ false
    → n.last_applied ≤ n.commit_index
    → apply_committed_entries n ≡ (ok tt, record (caught_up n) { log_held = false })
unfolding apply_committed_entries
apply_committed_entries_lem n free behind =
    rw (free, apply_all_lem (record n { log_held = true }) behind)

-- On a contiguous log that reaches the commit index, where the store has applied as much as the
-- node says, the store afterwards holds exactly the effects of the commands of those entries.
pub apply_committed_entries-effects :
    (n : RaftNode)
    → n.log_held ≡ false
    → n.last_applied ≤ n.commit_index
    → n.commit_index ≤ n.log.last_index
    → n.state_machine.last_applied ≡ n.last_applied
    → IsContiguous n.log
    → let n' = (apply_committed_entries n).1 in
      ((key : String)
        → get_value n'.state_machine key
          ≡ effects
              (get_entries (n.last_applied + 1) n.commit_index n.log)
              (get_value n.state_machine)
              key)
      × (n'.last_applied ≡ n.commit_index)
      × (n'.state_machine.last_applied ≡ n.commit_index)
apply_committed_entries-effects n free behind known in_step c =
    let (counted, ordered) =
      get_entries_lem (n.last_applied + 1) n.commit_index n.log c (omega arith) (omega arith)
        known in
    let es = get_entries (n.last_applied + 1) n.commit_index n.log in
    let (seen, last) = apply_entries-effects es n.state_machine (rw in_step ordered) in
    rw (apply_committed_entries_lem n free behind) (seen, refl, omega (arith, last, counted))
