-- ===== src/Node/Stand.antt =====
-- `start_election` of a node that has peers.
use mathlib.Core.List.{append_assoc, append-nil}
use raft_ebpf.Prelude.{
  ℕ, ◌+◌, ◌<◌, String, true, false, ◌≡◌, refl, sym, ap, ◌∙◌, some, List, [], ◌∷◌, ◌++◌, map, ok,
  is_empty, next_u64_lem, u64_mod, bind_ok,
}
use raft_ebpf.HashMap.{keys}
use raft_ebpf.Common.{
  Heapless, string_of, candidate, MessageEnvelope, RequestVoteRequest, request_vote, new_envelope,
}
use raft_ebpf.RaftLog.{current_term, voted_for, last_term}
use raft_ebpf.RaftLog.Format.{Json}
use raft_ebpf.RaftLog.Recovery.{IsDurable}
use raft_ebpf.RaftLog.Durable.{
  with_term, with_vote, set_current_term_lem, set_current_term-IsDurable, set_voted_for_lem,
  set_voted_for-IsDurable,
}
use raft_ebpf.Node.State.{RaftNode, with_log_run}
use raft_ebpf.Node.Elect.{send_requests, stand_for_election, start_election}

module _ ⦃h : Heapless⦄ where
  -- the request of a candidate, from its log
  abbrev pub candidacy : ℕ → RaftNode → RequestVoteRequest
  candidacy term n = record {
    term = term;
    candidate_id = string_of 64 n.node_id;
    last_log_index = n.log.last_index;
    last_log_term = last_term n.log;
  }

  abbrev pub asked : RequestVoteRequest → RaftNode → String → MessageEnvelope
  asked request n peer_id = new_envelope n.node_id peer_id (request_vote request)

module _ ⦃h : Heapless⦄ ⦃j : Json⦄ where
  send_requests_lem :
      (request : RequestVoteRequest) (ps : List String) (n : RaftNode)
      → send_requests request ps n
        ≡ (ok tt, record n { outgoing = n.outgoing ++ map (asked request n) ps })
  unfolding send_requests
  send_requests_lem request [] n =
      ap (λ (o : List MessageEnvelope). (ok tt, record n { outgoing = o }))
        (sym (append-nil n.outgoing))
  send_requests_lem request (p ∷ ps) n =
      send_requests_lem request ps (record n { outgoing = n.outgoing ++ asked request n p ∷ [] })
      ∙ ap (λ (o : List MessageEnvelope). (ok tt, record n { outgoing = o }))
          (append_assoc n.outgoing (asked request n p ∷ []) (map (asked request n) ps))

  -- the candidate, under the guard of the log
  abbrev pub standing : RaftNode → RaftNode
  standing n = record n {
    log = with_vote (some n.node_id) (with_term (current_term n.log + 1) n.log);
    role = candidate;
    votes_received = n.node_id ∷ [];
    last_heartbeat = n.clock;
    outgoing = n.outgoing ++ map (asked (candidacy (current_term n.log + 1) n) n) (keys n.peers);
  }

  pub stand_for_election_lem :
      (n : RaftNode)
      → current_term n.log + 1 < u64_mod
      → n.log.disk.faults ≡ []
      → stand_for_election n ≡ (ok (is_empty n.peers), standing n)
  unfolding stand_for_election last_term
  stand_for_election_lem n room healthy =
      rw
        (
          next_u64_lem (current_term n.log) room,
          set_current_term_lem (current_term n.log + 1) n.log healthy,
          set_voted_for_lem (some n.node_id) (with_term (current_term n.log + 1) n.log) healthy,
        )
        (bind_ok (send_requests (candidacy (current_term n.log + 1) n) (keys n.peers)) _ (
          send_requests_lem (candidacy (current_term n.log + 1) n) (keys n.peers)
            (record (standing n) { outgoing = n.outgoing })))

  pub IsDurable-standing : (n : RaftNode) → IsDurable n.log → IsDurable (standing n).log
  IsDurable-standing n d =
      let log = with_term (current_term n.log + 1) n.log in
      let next : IsDurable log =
        rw (set_current_term_lem (current_term n.log + 1) n.log d.healthy) at
          (set_current_term-IsDurable (current_term n.log + 1) n.log d) in
      rw (set_voted_for_lem (some n.node_id) log d.healthy) at
        (set_voted_for-IsDurable (some n.node_id) log next)

  -- A node that has peers stands for election, where the log's mutex is free, the log is in step
  -- with its files and the term is below 2^64 - 1: it goes on to the next term, and its vote for
  -- itself is on disk when the call returns; it is a candidate with this one vote, and each peer
  -- is asked once for its vote, with the last index and term of the log.
  pub start_election-stands :
      (n : RaftNode)
      → n.log_held ≡ false
      → current_term n.log + 1 < u64_mod
      → is_empty n.peers ≡ false
      → IsDurable n.log
      → let (r, n') = start_election n in
        (r ≡ ok tt)
        × IsDurable n'.log
        × (current_term n'.log ≡ current_term n.log + 1)
        × (voted_for n'.log ≡ some (string_of 64 n.node_id))
        × (n'.role ≡ candidate)
        × (n'.votes_received ≡ n.node_id ∷ [])
        × (n'.outgoing
            ≡ n.outgoing ++ map (asked (candidacy (current_term n.log + 1) n) n) (keys n.peers))
  unfolding start_election
  start_election-stands n free room peers d =
      let held : RaftNode = record n { log_held = true } in
      rw
        (with_log_run stand_for_election n free (stand_for_election_lem held room d.healthy), peers)
        (refl, IsDurable-standing n d, refl, refl, refl, refl, refl)
