-- ===== src/Node/Elect.antt =====
-- `start_election`, `handle_request_vote_response` and `become_leader`.
use raft_ebpf.Prelude.{
  ℕ, ◌+◌, String, text_eq, ◌==◌, Bool, false, some, List, [], ◌∷◌, ◌++◌, pure, gets, modify, ◌>>=◌,
  ◌>>◌, ◌||◌, not, ltb, leb, length, is_empty, next_u64, if◌then◌else◌,
}
use raft_ebpf.HashMap.{insert, keys}
use raft_ebpf.Common.{
  Heapless, string_of, same_role, candidate, leader, RequestVoteRequest, RequestVoteResponse,
  request_vote, new_envelope,
}
use raft_ebpf.RaftLog.{current_term, last_term, set_current_term, set_voted_for}
use raft_ebpf.RaftLog.Format.{Json}
use raft_ebpf.Node.State.{RaftNode, Handler, with_log, on_log, send}
use raft_ebpf.Node.Heartbeat.{send_heartbeats}
use raft_ebpf.Node.Commit.{majority, Next, finish, step_down, go_on, accept_term}

abbrev pub contains : List String → String → Bool
contains [] s = false
contains (x ∷ xs) s = x == s || contains xs s

-- `for peer_id in peers.keys()`
unfoldable pub reset_progress : ℕ → List String → RaftNode → RaftNode
reset_progress next [] n = n
reset_progress next (peer_id ∷ rest) n = reset_progress next rest (record n {
  next_index = insert n.next_index peer_id next;
  match_index = insert n.match_index peer_id 0;
})

module _ ⦃h : Heapless⦄ ⦃j : Json⦄ where
  unfoldable pub become_leader : Handler (Unit {0})
  unfolding reset_progress send_heartbeats
  become_leader = do
    modify (λ n. record n { role = leader; leader_id = some n.node_id })
    last_index ← with_log (gets (λ n. n.log.last_index))
    modify (λ n. reset_progress (next_u64 last_index) (keys n.peers) n)
    send_heartbeats

  unfoldable pub send_requests : RequestVoteRequest → List String → Handler (Unit {0})
  send_requests request [] = pure tt
  send_requests request (peer_id ∷ rest) = do
    n ← gets (λ n. n)
    send (new_envelope n.node_id peer_id (request_vote request))
    send_requests request rest

  -- The part under the guard of the log. It tells whether the node has no peer.
  unfoldable pub stand_for_election : Handler Bool
  unfolding set_current_term set_voted_for last_term send_requests
  stand_for_election = do
    new_term ← gets (λ n. next_u64 (current_term n.log))
    on_log (set_current_term new_term)
    me ← gets (λ n. n.node_id)
    on_log (set_voted_for (some me))
    modify (λ n. record n {
      role = candidate;
      votes_received = n.node_id ∷ [];
      last_heartbeat = n.clock;
    })
    n ← gets (λ n. n)
    send_requests
        (record {
          term = new_term;
          candidate_id = string_of 64 n.node_id;
          last_log_index = n.log.last_index;
          last_log_term = last_term n.log;
        })
        (keys n.peers)
    pure (is_empty n.peers)

  unfoldable pub start_election : Handler (Unit {0})
  unfolding stand_for_election become_leader
  start_election = do alone ← with_log stand_for_election; if alone then become_leader else pure tt

  abbrev pub count_vote : String → RaftNode → RaftNode
  count_vote from n =
      if contains n.votes_received from
      then n
      else record n { votes_received = n.votes_received ++ from ∷ [] }

  unfoldable pub read_vote_response : String → RequestVoteResponse → Handler Next
  read_vote_response from resp = do
    role ← gets (λ n. n.role)
    term ← gets (λ n. current_term n.log)
    if not (same_role role candidate)
        then pure finish
        else if ltb term resp.term
        then pure step_down
        else if resp.vote_granted
        then (do
          modify (count_vote from)
          n ← gets (λ n. n)
          pure (if leb (majority n) (length n.votes_received + 1) then go_on else finish))
        else pure finish

  abbrev pub after_vote_response : ℕ → Next → Handler (Unit {0})
  after_vote_response term finish = pure tt
  after_vote_response term step_down = accept_term term
  after_vote_response term go_on = become_leader

  unfoldable pub handle_request_vote_response : String → RequestVoteResponse → Handler (Unit {0})
  unfolding read_vote_response set_current_term become_leader
  handle_request_vote_response from resp = do
    next ← with_log (read_vote_response from resp)
    after_vote_response resp.term next
