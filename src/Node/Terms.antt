-- ===== src/Node/Terms.antt =====
-- The term and the vote over a message: the term never falls, and a vote stands for its term.
use mathlib.Core.Path.{subst}
use raft_ebpf.Prelude.{
  ℕ, ◌<◌, String, text_eq, Bool, true, false, ◌&&◌, ◌≡◌, sym, ap, ◌∙◌, some, ok, ◌>>=◌, ◌>>◌, ltb,
  Bool-cases, inl, inr, arith,
}
use raft_ebpf.Prelude.Keeps.{Keeps, Keeps-modify, Keeps-pure, keeps_rules, view-bind}
use raft_ebpf.Common.{
  Heapless, PersistentState, AppendEntriesRequest, AppendEntriesResponse, RequestVoteRequest,
  RequestVoteResponse, MessageEnvelope, RaftMessage, append_entries, append_entries_response,
  request_vote, request_vote_response, client_request, client_response, follower,
}
use raft_ebpf.RaftLog.{current_term, voted_for, set_current_term, set_voted_for}
use raft_ebpf.RaftLog.Format.{Json}
use raft_ebpf.RaftLog.Persistent.{persistent-set_voted_for}
use raft_ebpf.Node.State.{RaftNode, Handler, with_log, on_log, set_role}
use raft_ebpf.Node.Follow.{
  send_append_entries_response, adopt_leader, store_if_consistent, follow_under_lock, answer,
  handle_append_entries,
}
use raft_ebpf.Node.Commit.{
  Next, finish, step_down, go_on, accept_term, read_append_response, after_append_response,
  handle_append_entries_response,
}
use raft_ebpf.Node.Vote.{
  can_vote, log_ok, adopt_term, confirm_vote, decide_vote, vote_under_lock, handle_request_vote,
  send_request_vote_response,
}
use raft_ebpf.Node.Elect.{read_vote_response, after_vote_response, handle_request_vote_response}
use raft_ebpf.Node.Dispatch.{dispatch, handle_message}
use raft_ebpf.Node.Quiet.{
  with_log-Keeps, read_append_response-Keeps, read_vote_response-Keeps,
  try_advance_commit_index-Keeps, saved, store_if_consistent-Keeps, answer-Keeps,
  send_append_entries_response-Keeps, become_leader-Keeps,
}
use raft_ebpf.Node.Advance.{
  Advances-refl, with_log-Advances, with_log-ok, Advances-vote, newer_term-Advances,
  adopt_term-Advances, quiet-Advances, bind-Advances, Advances,
}

module _ ⦃h : Heapless⦄ ⦃j : Json⦄ where
  send_request_vote_response-Keeps :
      (to : String) (t : ℕ) (b : Bool) → Keeps saved (send_request_vote_response to t b)
  unfolding send_request_vote_response
  send_request_vote_response-Keeps to t b = search (keeps_rules, Keeps-modify)

  confirm_vote-Keeps : (from : String) → Keeps saved (confirm_vote from)
  unfolding confirm_vote
  confirm_vote-Keeps from = search (keeps_rules, Keeps-modify, send_request_vote_response-Keeps)

  decide_vote-Advances :
      (from : String) (req : RequestVoteRequest) (n : RaftNode)
      → Advances (saved n) (saved (decide_vote from req n).1)
  unfolding decide_vote
  decide_vote-Advances from req n =
      elim (Bool-cases (can_vote (voted_for n.log) req.candidate_id && log_ok req n.log)) [
        | inl granted ↦ rw granted (
            subst (Advances (saved n))
              (sym (
                view-bind (on_log (set_voted_for (some req.candidate_id))) (λ _. confirm_vote from)
                  n (λ _. confirm_vote-Keeps from)
                ∙ persistent-set_voted_for (some req.candidate_id) n.log))
              (Advances-vote (saved n) req.candidate_id (ground arith)))
        | inr refused ↦
            rw refused (
              quiet-Advances _ n (send_request_vote_response-Keeps from (current_term n.log) false))
      ]

  vote_under_lock-Advances :
      (from : String) (req : RequestVoteRequest) (n : RaftNode)
      → Advances (saved n) (saved (vote_under_lock from req n).1)
  unfolding vote_under_lock
  vote_under_lock-Advances from req n = elim (Bool-cases (ltb req.term (current_term n.log))) [
    | inl stale ↦ rw stale (
        quiet-Advances (send_request_vote_response from (current_term n.log) false) n
          (send_request_vote_response-Keeps from (current_term n.log) false))
    | inr fresh ↦ rw fresh (
        bind-Advances (adopt_term (current_term n.log) req.term) (λ _. decide_vote from req) n
          (adopt_term-Advances req.term n) (λ a t e same. decide_vote-Advances from req t))
  ]

  handle_request_vote-Advances :
      (from : String) (req : RequestVoteRequest) (n : RaftNode)
      → Advances (saved n) (saved (handle_request_vote from req n).1)
  unfolding handle_request_vote
  handle_request_vote-Advances from req n =
      with_log-Advances (vote_under_lock from req) n
        (vote_under_lock-Advances from req (record n { log_held = true }))

  adopt_leader-Advances :
      (req : AppendEntriesRequest) (n : RaftNode)
      → Advances (saved n) (saved (adopt_leader req n).1)
  unfolding adopt_leader
  adopt_leader-Advances req n =
      bind-Advances (adopt_term (current_term n.log) req.term) _ n (adopt_term-Advances req.term n)
        (λ a t e same. Advances-refl (saved t))

  follow_under_lock-Advances :
      (from : String) (req : AppendEntriesRequest) (n : RaftNode)
      → Advances (saved n) (saved (follow_under_lock from req n).1)
  unfolding follow_under_lock
  follow_under_lock-Advances from req n = elim (Bool-cases (ltb req.term (current_term n.log))) [
    | inl stale ↦ rw stale (
        bind-Advances (send_append_entries_response from (current_term n.log) false) _ n
          (quiet-Advances _ n (send_append_entries_response-Keeps from (current_term n.log) false))
          (λ a t e same. Advances-refl (saved t)))
    | inr fresh ↦ rw fresh (
        bind-Advances (adopt_leader req) (λ _. store_if_consistent from req (current_term n.log)) n
          (adopt_leader-Advances req n)
          (λ a t e same.
            quiet-Advances _ t (store_if_consistent-Keeps from req (current_term n.log))))
  ]

  handle_append_entries-Advances :
      (from : String) (req : AppendEntriesRequest) (n : RaftNode)
      → Advances (saved n) (saved (handle_append_entries from req n).1)
  unfolding handle_append_entries
  handle_append_entries-Advances from req n =
      bind-Advances (with_log (follow_under_lock from req)) (answer from) n
        (with_log-Advances (follow_under_lock from req) n
          (follow_under_lock-Advances from req (record n { log_held = true })))
        (λ o t e same. quiet-Advances (answer from o) t (answer-Keeps from o))

  accept_term-Advances :
      (term : ℕ) (n : RaftNode)
      → current_term n.log < term
      → Advances (saved n) (saved (accept_term term n).1)
  accept_term-Advances term n newer =
      with_log-Advances (on_log (set_current_term term) >> set_role follower) n (
        newer_term-Advances term (set_role follower) (record n { log_held = true }) newer
          (search Keeps-modify))

  append_step_down :
      (from : String) (resp : AppendEntriesResponse) (n : RaftNode)
      → (read_append_response from resp n).0 ≡ ok step_down
      → current_term n.log < resp.term
  unfolding read_append_response
  append_step_down from resp n e = ground arith

  vote_step_down :
      (from : String) (resp : RequestVoteResponse) (n : RaftNode)
      → (read_vote_response from resp n).0 ≡ ok step_down
      → current_term n.log < resp.term
  unfolding read_vote_response
  vote_step_down from resp n e = ground arith

  -- a response handler, from what its two parts do
  response-Advances :
      (read : Handler Next) (after : Next → Handler (Unit {0})) (term : ℕ) (n : RaftNode)
      → Keeps saved read
      → ((t : RaftNode) → (read t).0 ≡ ok step_down → current_term t.log < term)
      → Keeps saved (after finish)
      → Keeps saved (after go_on)
      → ((t : RaftNode)
          → current_term t.log < term
          → Advances (saved t) (saved (after step_down t).1))
      → Advances (saved n) (saved ((with_log read >>= after) n).1)
  response-Advances read after term n quiet newer q_finish q_go down =
      bind-Advances (with_log read) after n
        (quiet-Advances (with_log read) n (with_log-Keeps read quiet))
        (elim [
          | finish ↦ λ t e same. quiet-Advances (after finish) t q_finish
          | step_down ↦ λ t e same.
              let kept : saved t ≡ saved n = ap saved same ∙ (with_log-Keeps read quiet).at n in
              let term_kept : current_term t.log ≡ current_term n.log =
                ap (λ (p : PersistentState). p.current_term) kept in
              down t (omega (arith, newer (record n { log_held = true }) (with_log-ok read n e)))
          | go_on ↦ λ t e same. quiet-Advances (after go_on) t q_go
        ])

  handle_append_entries_response-Advances :
      (from : String) (resp : AppendEntriesResponse) (n : RaftNode)
      → Advances (saved n) (saved (handle_append_entries_response from resp n).1)
  unfolding handle_append_entries_response
  handle_append_entries_response-Advances from resp n =
      response-Advances (read_append_response from resp) (after_append_response resp.term) resp.term
        n (read_append_response-Keeps from resp) (append_step_down from resp) (Keeps-pure tt)
        try_advance_commit_index-Keeps (accept_term-Advances resp.term)

  handle_request_vote_response-Advances :
      (from : String) (resp : RequestVoteResponse) (n : RaftNode)
      → Advances (saved n) (saved (handle_request_vote_response from resp n).1)
  unfolding handle_request_vote_response
  handle_request_vote_response-Advances from resp n =
      response-Advances (read_vote_response from resp) (after_vote_response resp.term) resp.term n
        (read_vote_response-Keeps from resp) (vote_step_down from resp) (Keeps-pure tt)
        become_leader-Keeps (accept_term-Advances resp.term)

  dispatch-Advances :
      (from : String) (message : RaftMessage) (n : RaftNode)
      → Advances (saved n) (saved (dispatch from message n).1)
  dispatch-Advances from (append_entries req) n = handle_append_entries-Advances from req n
  dispatch-Advances from (append_entries_response resp) n =
      handle_append_entries_response-Advances from resp n
  dispatch-Advances from (request_vote req) n = handle_request_vote-Advances from req n
  dispatch-Advances from (request_vote_response resp) n =
      handle_request_vote_response-Advances from resp n
  dispatch-Advances from (client_request _) n = Advances-refl (saved n)
  dispatch-Advances from (client_response _) n = Advances-refl (saved n)

  -- Whatever message arrives, whichever call of the file system fails, and whether or not the
  -- handler waits for ever: the node's term does not fall, and while the term stays the same a
  -- vote of at most 64 bytes that the node has given stands. So it votes for one candidate a term.
  pub handle_message-Advances :
      (envelope : MessageEnvelope) (n : RaftNode)
      → Advances (saved n) (saved (handle_message envelope n).1)
  unfolding handle_message
  handle_message-Advances envelope n = dispatch-Advances envelope.from envelope.message n
