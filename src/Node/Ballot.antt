-- ===== src/Node/Ballot.antt =====
-- `handle_request_vote` on a healthy disk: who gets the vote, and what is saved before the reply.
use raft_ebpf.Prelude.{
  ℕ, ◌≤◌, max, String, text_eq, Bool, true, false, ◌&&◌, ◌||◌, ◌≡◌, refl, ap, ◌∙◌, some, List, [],
  ◌∷◌, ◌++◌, ok, ltb, leb, Bool-cases, Result, inl, inr, arith,
}
use raft_ebpf.Common.{
  Heapless, string_of, RequestVoteRequest, request_vote_response, new_envelope, MessageEnvelope,
}
use raft_ebpf.RaftLog.{RaftLog, current_term, voted_for, last_term}
use raft_ebpf.RaftLog.Format.{Json}
use raft_ebpf.RaftLog.Recovery.{IsDurable}
use raft_ebpf.RaftLog.Durable.{
  with_vote, set_current_term_lem, set_current_term-IsDurable, set_voted_for_lem,
  set_voted_for-IsDurable,
}
use raft_ebpf.Node.State.{RaftNode, with_log_run}
use raft_ebpf.Node.Adopt.{term_adopted}
use raft_ebpf.Node.Vote.{
  can_vote, log_ok, adopt_term, confirm_vote, decide_vote, vote_under_lock, handle_request_vote,
  send_request_vote_response,
}

-- Raft's rule: the term is not older, no other candidate has the vote of that term, and the
-- candidate's log is at least as up to date.
abbrev pub grants : RequestVoteRequest → RaftLog → Bool
grants req log =
    leb (current_term log) req.term
    && (ltb (current_term log) req.term || can_vote (voted_for log) req.candidate_id)
    && log_ok req log

lt_leb : (a b : ℕ) → a ≤ b → leb a b ≡ true
lt_leb a b le = ground arith

module _ ⦃h : Heapless⦄ ⦃j : Json⦄ where
  abbrev pub vote_reply : String → Bool → RaftNode → MessageEnvelope
  vote_reply from granted n = new_envelope n.node_id from (
      request_vote_response (record {
        term = current_term n.log;
        vote_granted = granted;
        node_id = string_of 64 n.node_id;
      }))

  -- what the node has done when the call returns
  pub record Balloted (from : String) (req : RequestVoteRequest) (n after : RaftNode) : Type 0 where
    pub durable : IsDurable after.log
    pub term : current_term after.log ≡ max (current_term n.log) req.term
    pub vote : grants req n.log ≡ true → voted_for after.log ≡ some (string_of 64 req.candidate_id)
    pub timer : grants req n.log ≡ true → after.last_heartbeat ≡ n.clock
    pub refused : grants req n.log ≡ false → after.last_heartbeat ≡ n.last_heartbeat
    pub answered : after.outgoing ≡ n.outgoing ++ vote_reply from (grants req n.log) after ∷ []

  abbrev refused_node : String → RaftNode → RaftNode
  refused_node from m = record m { outgoing = m.outgoing ++ vote_reply from false m ∷ [] }

  abbrev granted_node : String → RequestVoteRequest → RaftNode → RaftNode
  granted_node from req m = record m {
    log = with_vote (some req.candidate_id) m.log;
    last_heartbeat = m.clock;
    outgoing = m.outgoing ++ vote_reply from true m ∷ [];
  }

  -- the node after the term is adopted differs from `n` in nothing else that the reply reads
  record Adopts (req : RequestVoteRequest) (n m : RaftNode) : Type 0 where
    durable : IsDurable m.log
    term : current_term m.log ≡ max (current_term n.log) req.term
    outgoing : m.outgoing ≡ n.outgoing
    clock : m.clock ≡ n.clock
    timer : m.last_heartbeat ≡ n.last_heartbeat

  refused_Balloted :
      (from : String) (req : RequestVoteRequest) (n m : RaftNode)
      → Adopts req n m
      → grants req n.log ≡ false
      → Balloted from req n (refused_node from m)
  refused_Balloted from req n m a no_vote = record {
    durable = a.durable;
    term = a.term;
    vote = λ granted. absurd cc;
    timer = λ granted. absurd cc;
    refused = λ refused. a.timer;
    answered =
        rw no_vote
          (ap (λ (o : List MessageEnvelope). o ++ vote_reply from false m ∷ []) a.outgoing);
  }

  granted_Balloted :
      (from : String) (req : RequestVoteRequest) (n m : RaftNode)
      → Adopts req n m
      → grants req n.log ≡ true
      → Balloted from req n (granted_node from req m)
  granted_Balloted from req n m a voted = record {
    durable =
        rw (set_voted_for_lem (some req.candidate_id) m.log a.durable.healthy) at
          (set_voted_for-IsDurable (some req.candidate_id) m.log a.durable);
    term = a.term;
    vote = λ granted. refl;
    timer = λ granted. a.clock;
    refused = λ refused. absurd cc;
    answered =
        rw voted (ap (λ (o : List MessageEnvelope). o ++ vote_reply from true m ∷ []) a.outgoing);
  }

  decide_vote_lem :
      (from : String) (req : RequestVoteRequest) (n m : RaftNode)
      → Adopts req n m
      → (can_vote (voted_for m.log) req.candidate_id && log_ok req m.log) ≡ grants req n.log
      → let (r, n') = decide_vote from req m in (r ≡ ok tt) × Balloted from req n n'
  unfolding decide_vote send_request_vote_response confirm_vote
  decide_vote_lem from req n m a same = elim (Bool-cases (grants req n.log)) [
    | inl voted ↦
        rw (same ∙ voted, set_voted_for_lem (some req.candidate_id) m.log a.durable.healthy)
          (refl, granted_Balloted from req n m a voted)
    | inr refused ↦ rw (same ∙ refused) (refl, refused_Balloted from req n m a refused)
  ]

  adopt_term-Adopts :
      (req : RequestVoteRequest) (n : RaftNode)
      → IsDurable n.log
      → current_term n.log ≤ req.term
      → Adopts req n (term_adopted req.term n)
  adopt_term-Adopts req n d fresh = elim (Bool-cases (ltb (current_term n.log) req.term)) [
    | inl newer ↦ rw newer (record {
      durable =
          rw (set_current_term_lem req.term n.log d.healthy) at
            (set_current_term-IsDurable req.term n.log d);
      term = omega arith;
      outgoing = refl;
      clock = refl;
      timer = refl;
    })
    | inr same ↦
        rw same
          (record { durable = d; term = ground arith; outgoing = refl; clock = refl; timer = refl })
  ]

  grants-adopted :
      (req : RequestVoteRequest) (n : RaftNode)
      → current_term n.log ≤ req.term
      → let m = term_adopted req.term n in
        (can_vote (voted_for m.log) req.candidate_id && log_ok req m.log) ≡ grants req n.log
  unfolding log_ok last_term
  grants-adopted req n fresh = elim (Bool-cases (ltb (current_term n.log) req.term)) [
    | inl newer ↦ rw (newer, lt_leb (current_term n.log) req.term fresh) refl
    | inr same ↦ rw (same, lt_leb (current_term n.log) req.term fresh) refl
  ]

  adopt_term_lem :
      (term : ℕ) (n : RaftNode)
      → n.log.disk.faults ≡ []
      → adopt_term (current_term n.log) term n ≡ (ok tt, term_adopted term n)
  adopt_term_lem term n healthy = elim (Bool-cases (ltb (current_term n.log) term)) [
    | inl newer ↦ rw (newer, set_current_term_lem term n.log healthy) refl
    | inr same ↦ rw same refl
  ]

  vote_under_lock_lem :
      (from : String) (req : RequestVoteRequest) (n : RaftNode)
      → IsDurable n.log
      → let (r, n') = vote_under_lock from req n in (r ≡ ok tt) × Balloted from req n n'
  unfolding vote_under_lock send_request_vote_response
  vote_under_lock_lem from req n d = elim (Bool-cases (ltb req.term (current_term n.log))) [
    | inl stale ↦
        let a : Adopts req n n = record {
          durable = d;
          term = ground arith;
          outgoing = refl;
          clock = refl;
          timer = refl;
        } in
        rw stale (refl, refused_Balloted from req n n a (ground arith))
    | inr current ↦
        let fresh : current_term n.log ≤ req.term = ground arith in
        rw (current, adopt_term_lem req.term n d.healthy)
          (decide_vote_lem from req n (term_adopted req.term n) (adopt_term-Adopts req n d fresh)
            (grants-adopted req n fresh))
  ]

  Balloted-release :
      (from : String) (req : RequestVoteRequest) (n after : RaftNode)
      → Balloted from req (record n { log_held = true }) after
      → Balloted from req n (record after { log_held = false })
  Balloted-release from req n after b = record {
    durable = b.durable;
    term = b.term;
    vote = b.vote;
    timer = b.timer;
    refused = b.refused;
    answered = b.answered;
  }

  -- With the log's mutex free and the log in step with its files, the node answers every vote
  -- request, and grants it exactly if the term is not older, no other candidate has the vote of
  -- that term and the candidate's log is as up to date. The term, and the vote that is granted,
  -- are on disk when the call returns; a granted vote resets the timer of the election and a
  -- refused one does not.
  pub handle_request_vote-ballots :
      (from : String) (req : RequestVoteRequest) (n : RaftNode)
      → n.log_held ≡ false
      → IsDurable n.log
      → let (r, n') = handle_request_vote from req n in
        (r ≡ ok tt) × (n'.log_held ≡ false) × Balloted from req n n'
  unfolding handle_request_vote
  handle_request_vote-ballots from req n free d =
      let held : RaftNode = record n { log_held = true } in
      let (done, b) = vote_under_lock_lem from req held d in
      let run : vote_under_lock from req held ≡ (ok tt, (vote_under_lock from req held).1) =
        ap (λ (r : Result (Unit {0})). (r, (vote_under_lock from req held).1)) done in
      rw (with_log_run (vote_under_lock from req) n free run)
        (refl, refl, Balloted-release from req n (vote_under_lock from req held).1 b)
