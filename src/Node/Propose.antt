-- ===== src/Node/Propose.antt =====
-- `propose` at a leader.
use raft_ebpf.Prelude.{
  ℕ, ◌+◌, ◌<◌, text_eq, number_eq, true, false, ◌≡◌, refl, ap, some, ◌++◌, map, ok, u64_mod, arith,
}
use raft_ebpf.HashMap.{get, insert, keys}
use raft_ebpf.HashMap.Laws.{get-insert}
use raft_ebpf.Common.{Heapless, NodeRole, same_role, leader, Command, LogEntry}
use raft_ebpf.RaftLog.{current_term, entry_at}
use raft_ebpf.RaftLog.Format.{Json}
use raft_ebpf.RaftLog.RoundTrip.{FitsCommand}
use raft_ebpf.RaftLog.Recovery.{IsDurable}
use raft_ebpf.RaftLog.Durable.{appended, append_lem, append-IsDurable}
use raft_ebpf.Node.State.{RaftNode}
use raft_ebpf.Node.Heartbeat.{request_for}
use raft_ebpf.Node.Lead.{heartbeat, send_heartbeats_lem}
use raft_ebpf.Node.Client.{propose}

module _ ⦃h : Heapless⦄ ⦃j : Json⦄ where
  -- A leader, with the log's mutex free, the log in step with its files and the last index below
  -- 2^64 - 1, takes a proposal that is within the capacities: when the call returns the entry of
  -- its term is at the next index, in memory and on disk; the client is pending at that index and
  -- nobody is told of anything yet; nothing is committed by it; and each peer is sent one
  -- AppendEntries.
  pub propose-stores :
      (command : Command) (response_tx : ℕ) (n : RaftNode)
      → n.log_held ≡ false
      → n.role ≡ leader
      → n.log.last_index + 1 < u64_mod
      → FitsCommand command
      → IsDurable n.log
      → let (r, n') = propose command response_tx n in
        let next = n.log.last_index + 1 in
        (r ≡ ok tt)
        × IsDurable n'.log
        × (n'.log.last_index ≡ next)
        × (entry_at n'.log next
            ≡ some (record { index = next; term = current_term n.log; command = command }))
        × (get n'.pending_requests next ≡ some response_tx)
        × (n'.replies ≡ n.replies)
        × (n'.commit_index ≡ n.commit_index)
        × (n'.outgoing ≡ n.outgoing ++ map (heartbeat n') (keys n.peers))
  unfolding propose request_for
  propose-stores command response_tx n free lead room fits d =
      let is_leader : same_role n.role leader ≡ true =
        ap (λ (r : NodeRole). same_role r leader) lead in
      let next = n.log.last_index + 1 in
      let e : LogEntry = record { index = next; term = current_term n.log; command = command } in
      let stored = append_lem (current_term n.log) command n.log room d in
      let log' = appended (current_term n.log) command n.log in
      let m : RaftNode = record n {
        log = log';
        log_held = false;
        pending_requests = insert n.pending_requests next response_tx;
      } in
      rw (is_leader, free, stored, send_heartbeats_lem m refl lead)
        (
          refl,
          rw stored at ((append-IsDurable (current_term n.log) command n.log room fits d).1),
          refl,
          ground (arith, get-insert n.log.entries next next e),
          ground (arith, get-insert n.pending_requests next next response_tx),
          refl,
          refl,
          refl,
        )
