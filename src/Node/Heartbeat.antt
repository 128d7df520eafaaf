-- ===== src/Node/Heartbeat.antt =====
-- `send_heartbeats`.
use raft_ebpf.Prelude.{
  ◌-◌, String, text_eq, List, [], ◌∷◌, pure, gets, ◌>>=◌, ◌>>◌, take, unwrap_or, not, if◌then◌else◌,
}
use raft_ebpf.HashMap.{get, keys}
use raft_ebpf.Common.{
  Heapless, string_of, same_role, leader, AppendEntriesRequest, append_entries, new_envelope,
}
use raft_ebpf.RaftLog.{current_term, term_at, get_entries}
use raft_ebpf.Node.State.{RaftNode, Handler, with_log, send}

module _ ⦃h : Heapless⦄ where
  -- the request that the loop builds for one peer
  unfoldable pub request_for : RaftNode → String → AppendEntriesRequest
  unfolding term_at get_entries
  request_for n peer_id =
      let next_idx = unwrap_or (get n.next_index peer_id) 1 in
      let prev_log_index = next_idx - 1 in
      record {
        term = current_term n.log;
        leader_id = string_of 64 n.node_id;
        prev_log_index = prev_log_index;
        prev_log_term = unwrap_or (term_at n.log prev_log_index) 0;
        entries = take 64 (get_entries next_idx n.log.last_index n.log);
        leader_commit = n.commit_index;
      }

  unfoldable pub send_each : List String → Handler (Unit {0})
  unfolding request_for
  send_each [] = pure tt
  send_each (peer_id ∷ rest) = do
    n ← gets (λ n. n)
    send (new_envelope n.node_id peer_id (append_entries (request_for n peer_id)))
    send_each rest

  unfoldable pub send_heartbeats : Handler (Unit {0})
  unfolding send_each
  send_heartbeats = do
    role ← gets (λ n. n.role)
    if not (same_role role leader)
        then pure tt
        else (do peers ← gets (λ n. n.peers); with_log (send_each (keys peers)))
