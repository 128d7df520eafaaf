-- ===== src/Node/Follow.antt =====
-- `handle_append_entries` and `send_append_entries_response`.
use raft_ebpf.Prelude.{
  ℕ, String, Bool, true, false, Option, none, some, List, [], ◌∷◌, min, Exec, pure, gets, modify,
  ◌>>=◌, ◌>>◌, ◌&&◌, not, eqb, ltb, if◌then◌else◌,
}
use raft_ebpf.Common.{
  Heapless, string_of, follower, LogEntry, AppendEntriesRequest, append_entries_response,
  new_envelope,
}
use raft_ebpf.RaftLog
use raft_ebpf.RaftLog.{RaftLog, current_term, term_at, has_entry, truncate_from, set_current_term}
use raft_ebpf.RaftLog.Format.{Json}
use raft_ebpf.Node.State.{RaftNode, Handler, with_log, on_log, send, set_role, reset_timer}
use raft_ebpf.Node.Apply.{apply_committed_entries}

module _ ⦃h : Heapless⦄ ⦃j : Json⦄ where
  unfoldable pub send_append_entries_response : String → ℕ → Bool → Handler (Unit {0})
  send_append_entries_response to term success = with_log (do
    n ← gets (λ n. n)
    send (
        new_envelope n.node_id to (
          append_entries_response (record {
            term = term;
            success = success;
            last_log_index = n.log.last_index;
            node_id = string_of 64 n.node_id;
          }))))

  -- one round of the loop that looks for a conflict, and breaks at the first
  abbrev pub conflict_round :
      Option ℕ → LogEntry → Exec RaftLog (Unit {0}) → Exec RaftLog (Unit {0})
  conflict_round none entry rest = rest
  conflict_round (some existing_term) entry rest =
      if eqb existing_term entry.term then rest else truncate_from entry.index

  unfoldable pub delete_conflicts : List LogEntry → Exec RaftLog (Unit {0})
  unfolding term_at truncate_from
  delete_conflicts [] = pure tt
  delete_conflicts (entry ∷ entries) = do
    existing ← gets (λ log. term_at log entry.index)
    conflict_round existing entry (delete_conflicts entries)

  unfoldable pub store_new_entries : List LogEntry → Exec RaftLog (Unit {0})
  unfolding delete_conflicts
  store_new_entries [] = pure tt
  store_new_entries (entry ∷ entries) = do
    delete_conflicts (entry ∷ entries)
    RaftLog.append_entries (entry ∷ entries)

  abbrev pub raise_commit : ℕ → RaftNode → RaftNode
  raise_commit leader_commit n =
      if ltb n.commit_index leader_commit
      then record n { commit_index = min leader_commit n.log.last_index }
      else n

  -- "Update term if needed", "Reset election timer" and the leader's name
  unfoldable pub adopt_leader : AppendEntriesRequest → Handler (Unit {0})
  unfolding set_current_term
  adopt_leader req = do
    term ← gets (λ n. current_term n.log)
    if ltb term req.term
        then (do on_log (set_current_term req.term); set_role follower)
        else pure tt
    reset_timer
    modify (λ n. record n { leader_id = some req.leader_id })

  -- from "Check log consistency" to "Update commit index"
  unfoldable pub store_if_consistent : String → AppendEntriesRequest → ℕ → Handler (Option ℕ)
  unfolding send_append_entries_response store_new_entries has_entry
  store_if_consistent from req term = do
    consistent ← gets (λ n. has_entry req.prev_log_index req.prev_log_term n.log)
    if ltb 0 req.prev_log_index && not consistent
        then (do
          now ← gets (λ n. current_term n.log)
          send_append_entries_response from now false
          pure none)
        else (do
          on_log (store_new_entries req.entries)
          modify (raise_commit req.leader_commit)
          pure (some term))

  -- The part under the guard of the log. It gives the term to answer with, and nothing where the
  -- source has returned.
  unfoldable pub follow_under_lock : String → AppendEntriesRequest → Handler (Option ℕ)
  unfolding send_append_entries_response adopt_leader store_if_consistent
  follow_under_lock from req = do
    term ← gets (λ n. current_term n.log)
    if ltb req.term term
        then (do send_append_entries_response from term false; pure none)
        else (do adopt_leader req; store_if_consistent from req term)

  abbrev pub answer : String → Option ℕ → Handler (Unit {0})
  answer from none = pure tt
  answer from (some term) = do apply_committed_entries; send_append_entries_response from term true

  unfoldable pub handle_append_entries : String → AppendEntriesRequest → Handler (Unit {0})
  unfolding follow_under_lock apply_committed_entries send_append_entries_response
  handle_append_entries from req = do term ← with_log (follow_under_lock from req); answer from term
