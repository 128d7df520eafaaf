-- ===== src/Node/Vote.antt =====
-- `handle_request_vote` and `send_request_vote_response`.
use raft_ebpf.Prelude.{
  ℕ, String, text_eq, ◌==◌, Bool, true, false, Option, none, some, pure, gets, ◌>>=◌, ◌>>◌, ◌&&◌,
  ◌||◌, eqb, ltb, leb, if◌then◌else◌,
}
use raft_ebpf.Common.{
  Heapless, string_of, follower, RequestVoteRequest, request_vote_response, new_envelope,
}
use raft_ebpf.RaftLog.{RaftLog, current_term, voted_for, last_term, set_current_term, set_voted_for}
use raft_ebpf.RaftLog.Format.{Json}
use raft_ebpf.Node.State.{Handler, with_log, on_log, send, set_role, reset_timer}

-- `voted_for.is_none() || voted_for.as_deref() == Some(candidate_id)`
abbrev pub can_vote : Option String → String → Bool
can_vote none candidate_id = true
can_vote (some v) candidate_id = v == candidate_id

unfoldable pub log_ok : RequestVoteRequest → RaftLog → Bool
unfolding last_term
log_ok req log =
    ltb (last_term log) req.last_log_term
    || (eqb req.last_log_term (last_term log) && leb log.last_index req.last_log_index)

module _ ⦃h : Heapless⦄ ⦃j : Json⦄ where
  -- This one takes no lock.
  unfoldable pub send_request_vote_response : String → ℕ → Bool → Handler (Unit {0})
  send_request_vote_response to term vote_granted = do
    n ← gets (λ n. n)
    send (
        new_envelope n.node_id to (
          request_vote_response (record {
            term = term;
            vote_granted = vote_granted;
            node_id = string_of 64 n.node_id;
          })))

  -- the term that the node goes on with
  abbrev pub adopt_term : ℕ → ℕ → Handler (Unit {0})
  adopt_term term req_term =
      if ltb term req_term
      then (do on_log (set_current_term req_term); set_role follower)
      else pure tt

  unfoldable pub confirm_vote : String → Handler (Unit {0})
  unfolding send_request_vote_response
  confirm_vote from = do
    reset_timer
    now ← gets (λ n. current_term n.log)
    send_request_vote_response from now true

  unfoldable pub decide_vote : String → RequestVoteRequest → Handler (Unit {0})
  unfolding log_ok set_voted_for send_request_vote_response confirm_vote
  decide_vote from req = do
    log ← gets (λ n. n.log)
    if can_vote (voted_for log) req.candidate_id && log_ok req log
        then (do on_log (set_voted_for (some req.candidate_id)); confirm_vote from)
        else send_request_vote_response from (current_term log) false

  unfoldable pub vote_under_lock : String → RequestVoteRequest → Handler (Unit {0})
  unfolding decide_vote set_current_term send_request_vote_response
  vote_under_lock from req = do
    term ← gets (λ n. current_term n.log)
    if ltb req.term term
        then send_request_vote_response from term false
        else (do adopt_term term req.term; decide_vote from req)

  unfoldable pub handle_request_vote : String → RequestVoteRequest → Handler (Unit {0})
  unfolding vote_under_lock
  handle_request_vote from req = with_log (vote_under_lock from req)
