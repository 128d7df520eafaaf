-- ===== src/Node/Quiet.antt =====
-- The handlers' parts that leave the term and the vote alone, whatever fails on the way.
use raft_ebpf.Prelude.{
  ℕ, number_eq, text_eq, zero, suc, ◌-◌, String, Bool, true, ◌≡◌, refl, ◌∙◌, Option, none, some,
  List, [], ◌∷◌, Result, ok, err, blocked, Exec, gets, modify, ◌>>◌, Bool-cases, inl, inr, arith,
}
use raft_ebpf.Prelude.Keeps.{Keeps, Keeps-modify, Keeps-then, Keeps-bind, Keeps-gets, keeps_rules}
use raft_ebpf.HashMap.{get}
use raft_ebpf.Common.{
  Heapless, LogEntry, PersistentState, AppendEntriesRequest, AppendEntriesResponse,
  RequestVoteResponse, new_envelope, append_entries,
}
use raft_ebpf.RaftLog
use raft_ebpf.RaftLog.{RaftLog, term_at, truncate_from}
use raft_ebpf.RaftLog.Format.{Json}
use raft_ebpf.RaftLog.Persistent.{persistent, append_entries-Keeps, truncate_from-Keeps}
use raft_ebpf.Node.State.{RaftNode, Handler, send, release, with_log, on_log}
use raft_ebpf.Node.Apply.{apply_next, apply_while, apply_all, apply_committed_entries}
use raft_ebpf.Node.Heartbeat.{request_for, send_each, send_heartbeats}
use raft_ebpf.Node.Follow.{
  send_append_entries_response, conflict_round, raise_commit, delete_conflicts, store_new_entries,
  store_if_consistent, answer,
}
use raft_ebpf.Node.Commit.{
  notify_one, commit_found, notify_each, notify_pending_requests, try_advance_commit_index,
  read_append_response,
}
use raft_ebpf.Node.Elect.{reset_progress, become_leader, read_vote_response}

-- the term and the vote of a node
abbrev pub saved : RaftNode → PersistentState
saved n = n.log.persistent_state

pub saved-release : {A : Type 0} (x : Result A × RaftNode) → saved (release x).1 ≡ saved x.1
saved-release (ok a, n) = refl
saved-release (err e, n) = refl
saved-release (blocked, n) = refl

module _ {A : Type 0} where
  pub with_log-Keeps : (body : Handler A) → Keeps saved body → Keeps saved (with_log body)
  with_log-Keeps body k = record {
    at = λ n. elim (Bool-cases n.log_held) [
      | inl held ↦ rw held
      | inr free ↦ rw free (
          saved-release (body (record n { log_held = true })) ∙ k.at (record n { log_held = true }))
    ];
  }

  pub on_log-Keeps : (m : Exec RaftLog A) → Keeps persistent m → Keeps saved (on_log m)
  on_log-Keeps m k = record { at = λ n. k.at n.log }

pub ruleset node_rules = (keeps_rules, Keeps-modify, with_log-Keeps, on_log-Keeps, refl)

saved-apply_while : (fuel commit : ℕ) (n : RaftNode) → saved (apply_while fuel commit n) ≡ saved n
unfolding apply_while apply_next
saved-apply_while zero commit n = refl
saved-apply_while (suc fuel) commit n = ground (arith, saved-apply_while fuel commit (apply_next n))

saved-apply_all : (n : RaftNode) → saved (apply_all n) ≡ saved n
unfolding apply_all
saved-apply_all n = saved-apply_while (n.commit_index - n.last_applied) n.commit_index n

apply_committed_entries-Keeps : Keeps saved apply_committed_entries
unfolding apply_committed_entries
apply_committed_entries-Keeps =
    with_log-Keeps (modify apply_all) (Keeps-modify apply_all saved-apply_all)

notify_one-Keeps : (tx : Option ℕ) (idx : ℕ) → Keeps saved (notify_one tx idx)
notify_one-Keeps none idx = search node_rules
notify_one-Keeps (some tx) idx = search node_rules

notify_each-Keeps : (indices : List ℕ) → Keeps saved (notify_each indices)
unfolding notify_each
notify_each-Keeps [] = search node_rules
notify_each-Keeps (idx ∷ rest) =
    Keeps-bind (gets (λ n. get n.pending_requests idx))
      (λ tx. notify_one tx idx >> notify_each rest) (Keeps-gets _)
      λ tx.
        Keeps-then (notify_one tx idx) (notify_each rest) (notify_one-Keeps tx idx)
          (notify_each-Keeps rest)

notify_pending_requests-Keeps : (i : ℕ) → Keeps saved (notify_pending_requests i)
unfolding notify_pending_requests
notify_pending_requests-Keeps i = search (node_rules, notify_each-Keeps)

commit_found-Keeps : (o : Option ℕ) → Keeps saved (commit_found o)
commit_found-Keeps none = search node_rules
commit_found-Keeps (some i) =
    search (node_rules, apply_committed_entries-Keeps, notify_pending_requests-Keeps)

pub try_advance_commit_index-Keeps : Keeps saved try_advance_commit_index
unfolding try_advance_commit_index
try_advance_commit_index-Keeps = search (node_rules, commit_found-Keeps) depth 8

saved-reset_progress :
    (next : ℕ) (peers : List String) (n : RaftNode) → saved (reset_progress next peers n) ≡ saved n
unfolding reset_progress
saved-reset_progress next [] n = refl
saved-reset_progress next (p ∷ rest) n = saved-reset_progress next rest _

module _ ⦃h : Heapless⦄ ⦃j : Json⦄ where
  pub send_append_entries_response-Keeps :
      (to : String) (term : ℕ) (b : Bool) → Keeps saved (send_append_entries_response to term b)
  unfolding send_append_entries_response
  send_append_entries_response-Keeps to term b = search node_rules

  send_each-Keeps : (peers : List String) → Keeps saved (send_each peers)
  unfolding send_each
  send_each-Keeps [] = search node_rules
  send_each-Keeps (p ∷ rest) = Keeps-bind (gets (λ n. n)) _ (Keeps-gets _) λ n.
      Keeps-then (send (new_envelope n.node_id p (append_entries (request_for n p))))
        (send_each rest) (search node_rules) (send_each-Keeps rest)

  pub send_heartbeats-Keeps : Keeps saved send_heartbeats
  unfolding send_heartbeats
  send_heartbeats-Keeps = search (node_rules, send_each-Keeps) depth 8

  pub become_leader-Keeps : Keeps saved become_leader
  unfolding become_leader
  become_leader-Keeps = search (node_rules, saved-reset_progress, send_heartbeats-Keeps) depth 10

  conflict_round-Keeps :
      (o : Option ℕ) (e : LogEntry) (rest : Exec RaftLog (Unit {0}))
      → Keeps persistent rest
      → Keeps persistent (conflict_round o e rest)
  conflict_round-Keeps none e rest k = k
  conflict_round-Keeps (some t) e rest k = search (keeps_rules, truncate_from-Keeps)

  delete_conflicts-Keeps : (es : List LogEntry) → Keeps persistent (delete_conflicts es)
  unfolding delete_conflicts
  delete_conflicts-Keeps [] = search keeps_rules
  delete_conflicts-Keeps (e ∷ es) =
      Keeps-bind (gets (λ log. term_at log e.index)) (λ o. conflict_round o e (delete_conflicts es))
        (Keeps-gets _)
        λ o. conflict_round-Keeps o e (delete_conflicts es) (delete_conflicts-Keeps es)

  store_new_entries-Keeps : (es : List LogEntry) → Keeps persistent (store_new_entries es)
  unfolding store_new_entries
  store_new_entries-Keeps [] = search keeps_rules
  store_new_entries-Keeps (e ∷ es) =
      Keeps-then (delete_conflicts (e ∷ es)) (RaftLog.append_entries (e ∷ es))
        (delete_conflicts-Keeps (e ∷ es)) (append_entries-Keeps (e ∷ es))

  saved-raise_commit : (c : ℕ) (n : RaftNode) → saved (raise_commit c n) ≡ saved n
  saved-raise_commit c n = ground arith

  pub store_if_consistent-Keeps :
      (from : String) (req : AppendEntriesRequest) (term : ℕ)
      → Keeps saved (store_if_consistent from req term)
  unfolding store_if_consistent
  store_if_consistent-Keeps from req term =
      search
        (
          node_rules, send_append_entries_response-Keeps, store_new_entries-Keeps,
          saved-raise_commit,
        )
        depth 12

  pub answer-Keeps : (from : String) (o : Option ℕ) → Keeps saved (answer from o)
  answer-Keeps from none = search node_rules
  answer-Keeps from (some t) =
      search (node_rules, apply_committed_entries-Keeps, send_append_entries_response-Keeps)

  pub read_append_response-Keeps :
      (from : String) (resp : AppendEntriesResponse) → Keeps saved (read_append_response from resp)
  unfolding read_append_response
  read_append_response-Keeps from resp = record { at = λ n. ground arith }

  pub read_vote_response-Keeps :
      (from : String) (resp : RequestVoteResponse) → Keeps saved (read_vote_response from resp)
  unfolding read_vote_response
  read_vote_response-Keeps from resp = record { at = λ n. ground arith }
