-- ===== src/Ipc/Membership.antt =====
-- `Join` and `Leave`: what they do to the peers and to their progress.
use raft_ebpf.Prelude.{
  ℕ, String, text_eq, ◌==◌, false, ◌≡◌, refl, ◌∙◌, none, Bool-cases, inl, inr, arith, if◌then◌else◌,
}
use raft_ebpf.HashMap.{HashMap, get, insert, remove}
use raft_ebpf.HashMap.Laws.{get-insert, get-remove}
use raft_ebpf.Common.{Heapless, same_role, leader}
use raft_ebpf.StateMachine.Messages.{Values}
use raft_ebpf.RaftLog.Format.{Json}
use raft_ebpf.Node.State.{RaftNode}
use raft_ebpf.Node.Client.{add_peer, remove_peer}
use raft_ebpf.Ipc.Requests.{Texts, Received, join, leave, process_request}

-- a map without the key, and as before elsewhere
abbrev pub Without : {V : Type 0} → String → HashMap String V → HashMap String V → Type 0
Without id before after = (k : String) → get after k ≡ (if id == k then none else get before k)

Without-insert :
    {V : Type 0} (id : String) (v : V) (m : HashMap String V)
    → Without id m (remove (insert m id v) id)
Without-insert id v m k = get-remove (insert m id v) id k ∙ ground (arith, get-insert m id k v)

Without-remove : {V : Type 0} (id : String) (m : HashMap String V) → Without id m (remove m id)
Without-remove id m k = get-remove m id k

module _ ⦃h : Heapless⦄ ⦃j : Json⦄ ⦃v : Values⦄ ⦃t : Texts⦄ where
  -- A peer that joins, with the log's mutex free, and leaves again is gone from the peers and from
  -- both maps of progress; every other peer is in them as before, and the log is as it was.
  pub process_request-leave :
      (tx now : ℕ) (later : Received) (id address : String) (n : RaftNode)
      → n.log_held ≡ false
      → let n' = (process_request tx later now (join id address) n).1 in
        let n'' = (process_request tx later now (leave id) n').1 in
        Without id n.peers n''.peers
        × Without id n.next_index n''.next_index
        × Without id n.match_index n''.match_index
        × (n''.log ≡ n.log)
  unfolding process_request add_peer remove_peer
  process_request-leave tx now later id address n free =
      elim (Bool-cases (same_role n.role leader)) [
        | inl leads ↦
            rw (leads, free)
              (
                Without-insert id _ n.peers,
                Without-insert id _ n.next_index,
                Without-insert id 0 n.match_index,
                refl,
              )
        | inr follows ↦ rw follows (
          Without-insert id _ n.peers,
          Without-remove id n.next_index,
          Without-remove id n.match_index,
          refl,
        )
      ]
