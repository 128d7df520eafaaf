-- ===== src/Daemon/Handlers.antt =====
-- Every handler but those that store entries keeps a node sound, whatever arrives.
use raft_ebpf.Prelude.{
  ℕ, String, number_eq, text_eq, Bool, Option, none, some, List, [], ◌∷◌, gets, ◌>>◌, Bool-cases,
  inl, inr,
}
use raft_ebpf.HashMap.{get}
use raft_ebpf.Common.{
  Heapless, AppendEntriesResponse, RequestVoteRequest, RequestVoteResponse, new_envelope,
  append_entries, request_vote,
}
use raft_ebpf.RaftLog.{set_current_term, set_voted_for}
use raft_ebpf.RaftLog.Format.{Json}
use raft_ebpf.RaftLog.Durable.{set_current_term_lem, set_voted_for_lem}
use raft_ebpf.Node.State.{RaftNode, on_log, send}
use raft_ebpf.Node.Apply.{apply_all, apply_committed_entries}
use raft_ebpf.Node.Applied.{apply_all_lem}
use raft_ebpf.Node.Heartbeat.{request_for, send_each, send_heartbeats}
use raft_ebpf.Node.Follow.{send_append_entries_response, answer}
use raft_ebpf.Node.Commit.{
  notify_one, notify_each, notify_pending_requests, accept_term, back_off, read_append_response,
}
use raft_ebpf.Node.Vote.{
  send_request_vote_response, confirm_vote, decide_vote, vote_under_lock, handle_request_vote,
}
use raft_ebpf.Node.Elect.{
  contains, count_vote, reset_progress, become_leader, send_requests, stand_for_election,
  start_election, read_vote_response, handle_request_vote_response, after_vote_response,
}
use raft_ebpf.Node.Commit.{Next, finish, step_down, go_on}
use raft_ebpf.Node.Client.{add_peer, remove_peer, get_status}
use raft_ebpf.Daemon.Sound.{Sound, Sound-with_term, Sound-with_vote, Sound-apply}
use raft_ebpf.Daemon.Safe.{
  Safe, Safe-gets, Safe-bind, Safe-then, Safe-with_log, Safe-on_log, safe_rules,
}

module _ ⦃h : Heapless⦄ ⦃j : Json⦄ where
  set_current_term-Safe : (term : ℕ) → Safe (on_log (set_current_term term))
  set_current_term-Safe term = Safe-on_log (set_current_term term) λ n s.
      rw (set_current_term_lem term n.log s.durable.healthy)
        (Sound-with_term term n.log n.commit_index n.last_applied n.state_machine s)

  set_voted_for-Safe : (c : Option String) → Safe (on_log (set_voted_for c))
  set_voted_for-Safe c = Safe-on_log (set_voted_for c) λ n s.
      rw (set_voted_for_lem c n.log s.durable.healthy)
        (Sound-with_vote c n.log n.commit_index n.last_applied n.state_machine s)

  apply_all-Sound : (n : RaftNode) → Sound n → Sound (apply_all n)
  apply_all-Sound n s =
      rw (apply_all_lem n s.behind)
        (Sound-apply n.log n.commit_index n.last_applied n.state_machine s)

  pub apply_committed_entries-Safe : Safe apply_committed_entries
  unfolding apply_committed_entries
  apply_committed_entries-Safe = search (safe_rules, apply_all-Sound)

  notify_one-Safe : (tx : Option ℕ) (idx : ℕ) → Safe (notify_one tx idx)
  notify_one-Safe none idx = search safe_rules
  notify_one-Safe (some tx) idx = search safe_rules

  notify_each-Safe : (indices : List ℕ) → Safe (notify_each indices)
  unfolding notify_each
  notify_each-Safe [] = search safe_rules
  notify_each-Safe (idx ∷ rest) =
      Safe-bind (gets (λ n. get n.pending_requests idx))
        (λ tx. notify_one tx idx >> notify_each rest) (Safe-gets _)
        λ tx.
          Safe-then (notify_one tx idx) (notify_each rest) (notify_one-Safe tx idx)
            (notify_each-Safe rest)

  pub notify_pending_requests-Safe : (i : ℕ) → Safe (notify_pending_requests i)
  unfolding notify_pending_requests
  notify_pending_requests-Safe i = search (safe_rules, notify_each-Safe)

  pub send_append_entries_response-Safe :
      (to : String) (term : ℕ) (b : Bool) → Safe (send_append_entries_response to term b)
  unfolding send_append_entries_response
  send_append_entries_response-Safe to term b = search safe_rules

  pub answer-Safe : (from : String) (o : Option ℕ) → Safe (answer from o)
  answer-Safe from none = search safe_rules
  answer-Safe from (some t) =
      search (safe_rules, apply_committed_entries-Safe, send_append_entries_response-Safe)

  send_each-Safe : (peers : List String) → Safe (send_each peers)
  unfolding send_each
  send_each-Safe [] = search safe_rules
  send_each-Safe (p ∷ rest) = Safe-bind (gets (λ n. n)) _ (Safe-gets _) λ n.
      Safe-then (send (new_envelope n.node_id p (append_entries (request_for n p))))
        (send_each rest) (search safe_rules) (send_each-Safe rest)

  pub send_heartbeats-Safe : Safe send_heartbeats
  unfolding send_heartbeats
  send_heartbeats-Safe = search (safe_rules, send_each-Safe) depth 8

  reset_progress-Sound :
      (next : ℕ) (peers : List String) (n : RaftNode)
      → Sound n
      → Sound (reset_progress next peers n)
  unfolding reset_progress
  reset_progress-Sound next [] n s = s
  reset_progress-Sound next (p ∷ rest) n s = reset_progress-Sound next rest _ s

  pub become_leader-Safe : Safe become_leader
  unfolding become_leader
  become_leader-Safe = search (safe_rules, reset_progress-Sound, send_heartbeats-Safe) depth 10

  pub accept_term-Safe : (term : ℕ) → Safe (accept_term term)
  accept_term-Safe term = search (safe_rules, set_current_term-Safe)

  back_off-Sound :
      (o : Option ℕ) (from : String) (n : RaftNode) → Sound n → Sound (back_off o from n)
  back_off-Sound none from n s = s
  back_off-Sound (some idx) from n s = s

  count_vote-Sound : (from : String) (n : RaftNode) → Sound n → Sound (count_vote from n)
  count_vote-Sound from n s = elim (Bool-cases (contains n.votes_received from)) [
    | inl counted ↦ rw counted s
    | inr new ↦ rw new s
  ]

  back_off_entry-Sound :
      (from : String) (n : RaftNode) → Sound n → Sound (back_off (get n.next_index from) from n)
  back_off_entry-Sound from n s = back_off-Sound (get n.next_index from) from n s

  pub read_append_response-Safe :
      (from : String) (resp : AppendEntriesResponse) → Safe (read_append_response from resp)
  unfolding read_append_response
  read_append_response-Safe from resp = search (safe_rules, back_off_entry-Sound) depth 12

  read_vote_response-Safe :
      (from : String) (resp : RequestVoteResponse) → Safe (read_vote_response from resp)
  unfolding read_vote_response
  read_vote_response-Safe from resp = search (safe_rules, count_vote-Sound) depth 14

  after_vote_response-Safe : (term : ℕ) (next : Next) → Safe (after_vote_response term next)
  after_vote_response-Safe term finish = search safe_rules
  after_vote_response-Safe term step_down = accept_term-Safe term
  after_vote_response-Safe term go_on = become_leader-Safe

  pub handle_request_vote_response-Safe :
      (from : String) (resp : RequestVoteResponse) → Safe (handle_request_vote_response from resp)
  unfolding handle_request_vote_response
  handle_request_vote_response-Safe from resp =
      search (safe_rules, read_vote_response-Safe, after_vote_response-Safe)

  send_request_vote_response-Safe :
      (to : String) (t : ℕ) (b : Bool) → Safe (send_request_vote_response to t b)
  unfolding send_request_vote_response
  send_request_vote_response-Safe to t b = search safe_rules

  confirm_vote-Safe : (from : String) → Safe (confirm_vote from)
  unfolding confirm_vote
  confirm_vote-Safe from = search (safe_rules, send_request_vote_response-Safe)

  decide_vote-Safe : (from : String) (req : RequestVoteRequest) → Safe (decide_vote from req)
  unfolding decide_vote
  decide_vote-Safe from req =
      search (safe_rules, set_voted_for-Safe, confirm_vote-Safe, send_request_vote_response-Safe)
        depth 10

  vote_under_lock-Safe :
      (from : String) (req : RequestVoteRequest) → Safe (vote_under_lock from req)
  unfolding vote_under_lock
  vote_under_lock-Safe from req =
      search (safe_rules, set_current_term-Safe, decide_vote-Safe, send_request_vote_response-Safe)
        depth 12

  pub handle_request_vote-Safe :
      (from : String) (req : RequestVoteRequest) → Safe (handle_request_vote from req)
  unfolding handle_request_vote
  handle_request_vote-Safe from req =
      Safe-with_log (vote_under_lock from req) (vote_under_lock-Safe from req)

  send_requests-Safe :
      (request : RequestVoteRequest) (peers : List String) → Safe (send_requests request peers)
  unfolding send_requests
  send_requests-Safe request [] = search safe_rules
  send_requests-Safe request (p ∷ rest) = Safe-bind (gets (λ n. n)) _ (Safe-gets _) λ n.
      Safe-then (send (new_envelope n.node_id p (request_vote request)))
        (send_requests request rest) (search safe_rules) (send_requests-Safe request rest)

  stand_for_election-Safe : Safe stand_for_election
  unfolding stand_for_election
  stand_for_election-Safe =
      search (safe_rules, set_current_term-Safe, set_voted_for-Safe, send_requests-Safe) depth 14

  pub start_election-Safe : Safe start_election
  unfolding start_election
  start_election-Safe = search (safe_rules, stand_for_election-Safe, become_leader-Safe) depth 8

  pub add_peer-Safe : (id address : String) → Safe (add_peer id address)
  unfolding add_peer
  add_peer-Safe id address = search safe_rules depth 10

  pub remove_peer-Safe : (id : String) → Safe (remove_peer id)
  unfolding remove_peer
  remove_peer-Safe id = search safe_rules

  pub get_status-Safe : Safe get_status
  unfolding get_status
  get_status-Safe = search safe_rules
