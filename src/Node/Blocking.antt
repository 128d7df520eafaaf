-- ===== src/Node/Blocking.antt =====
-- The mutex of the log across the handlers: which calls wait for ever.
use raft_ebpf.Prelude.{
  ℕ, ◌≤◌, ◌<◌, [], String, number_eq, true, false, ◌≡◌, refl, ◌∙◌, Result, ok, err, blocked,
  continue, List, ltb, lt→ltb, arith,
}
use raft_ebpf.Common.{
  Heapless, AppendEntriesRequest, MessageEnvelope, RaftMessage, append_entries,
  append_entries_response, request_vote, request_vote_response, client_request, client_response,
}
use raft_ebpf.RaftLog.{current_term, has_entry}
use raft_ebpf.RaftLog.Format.{Json}
use raft_ebpf.Node.State.{RaftNode, Handler, release}
use raft_ebpf.Node.Follow.{
  send_append_entries_response, answer, store_if_consistent, follow_under_lock,
  handle_append_entries,
}
use raft_ebpf.Node.Commit.{handle_append_entries_response}
use raft_ebpf.Node.Vote.{handle_request_vote}
use raft_ebpf.Node.Elect.{handle_request_vote_response}
use raft_ebpf.Node.Adopt.{
  adopted, adopt_leader_lem, has_entry-adopted, log_held-adopted, outgoing-adopted,
}
use raft_ebpf.Node.Dispatch.{dispatch}

-- the four messages that have a handler
abbrev pub IsHandled : RaftMessage → Type 0
IsHandled (client_request _) = ⊥
IsHandled (client_response _) = ⊥
IsHandled _ = Unit

not_stale : (a b : ℕ) → b ≤ a → ltb a b ≡ false
not_stale a b h = ground arith

-- a handler that waits for ever does so through the end of the guard's scope
blocked_through :
    {A : Type 0} (result : Result A × RaftNode) (f : A → Handler (Unit {0}))
    {sent : List MessageEnvelope}
    → (result.0 ≡ blocked) × (result.1.log_held ≡ true) × (result.1.outgoing ≡ sent)
    → let (r, n) = release result in
      let (r', n') = continue r f n in (r' ≡ blocked) × (n'.log_held ≡ true) × (n'.outgoing ≡ sent)
blocked_through (ok a, n) f h = absurd (ground arith)
blocked_through (err e, n) f h = absurd (ground arith)
blocked_through (blocked, n) f h = (refl, h.1, h.2)

module _ ⦃h : Heapless⦄ ⦃j : Json⦄ where
  -- An AppendEntries of an older term is never answered: where the log's mutex is free the handler
  -- takes it and then locks it again, so it waits for ever, has changed nothing else, and keeps
  -- the mutex.
  pub stale_append-blocks :
      (from : String) (req : AppendEntriesRequest) (n : RaftNode)
      → n.log_held ≡ false
      → req.term < current_term n.log
      → handle_append_entries from req n ≡ (blocked, record n { log_held = true })
  unfolding handle_append_entries
  stale_append-blocks from req n free stale = rw (free, lt→ltb req.term (current_term n.log) stale)

  pub dispatch-blocks :
      (from : String) (message : RaftMessage) (n : RaftNode)
      → IsHandled message
      → n.log_held ≡ true
      → dispatch from message n ≡ (blocked, n)
  unfolding handle_append_entries handle_append_entries_response handle_request_vote
      handle_request_vote_response
  dispatch-blocks from (append_entries req) n handled held = rw held
  dispatch-blocks from (append_entries_response resp) n handled held = rw held
  dispatch-blocks from (request_vote req) n handled held = rw held
  dispatch-blocks from (request_vote_response resp) n handled held = rw held
  dispatch-blocks from (client_request _) n handled held = absurd handled
  dispatch-blocks from (client_response _) n handled held = absurd handled

  -- the second part of the handler, on a log that it does not join on to
  inconsistent_adopted :
      (from : String) (req : AppendEntriesRequest) (term : ℕ) (n : RaftNode)
      → n.log_held ≡ true
      → 0 < req.prev_log_index
      → has_entry req.prev_log_index req.prev_log_term n.log ≡ false
      → store_if_consistent from req term n ≡ (blocked, n)
  unfolding store_if_consistent send_append_entries_response
  inconsistent_adopted from req term n held prev absent =
      rw (lt→ltb 0 req.prev_log_index prev, absent, held)

  -- the same of a request that the log does not join on to
  inconsistent_under_lock :
      (from : String) (req : AppendEntriesRequest) (n : RaftNode)
      → n.log_held ≡ true
      → n.log.disk.faults ≡ []
      → current_term n.log ≤ req.term
      → 0 < req.prev_log_index
      → has_entry req.prev_log_index req.prev_log_term n.log ≡ false
      → let (r, n') = follow_under_lock from req n in
        (r ≡ blocked) × (n'.log_held ≡ true) × (n'.outgoing ≡ n.outgoing)
  unfolding follow_under_lock
  inconsistent_under_lock from req n held healthy fresh prev absent =
      rw (not_stale req.term (current_term n.log) fresh, adopt_leader_lem req n healthy)
        (rw
          (inconsistent_adopted from req (current_term n.log) (adopted req n)
            (log_held-adopted req n ∙ held) prev
            (has_entry-adopted req n req.prev_log_index req.prev_log_term ∙ absent))
          (refl, log_held-adopted req n ∙ held, outgoing-adopted req n))

  -- An AppendEntries of a current or newer term that does not join on to the log is never answered
  -- either, with the mutex free and no failure of the file system: the handler waits for ever, has
  -- sent nothing, and keeps the mutex.
  pub inconsistent_append-blocks :
      (from : String) (req : AppendEntriesRequest) (n : RaftNode)
      → n.log_held ≡ false
      → n.log.disk.faults ≡ []
      → current_term n.log ≤ req.term
      → 0 < req.prev_log_index
      → has_entry req.prev_log_index req.prev_log_term n.log ≡ false
      → let (r, n') = handle_append_entries from req n in
        (r ≡ blocked) × (n'.log_held ≡ true) × (n'.outgoing ≡ n.outgoing)
  unfolding handle_append_entries
  inconsistent_append-blocks from req n free healthy fresh prev absent =
      let under =
        inconsistent_under_lock from req (record n { log_held = true }) refl healthy fresh prev
          absent in
      rw free (blocked_through _ (answer from) under)
