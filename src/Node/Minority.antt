-- ===== src/Node/Minority.antt =====
-- An election in a cluster of up to five, from its start to its first vote.
use raft_ebpf.Prelude.{
  ◌+◌, ◌≤◌, ◌<◌, String, text_eq, ◌==◌, false, true, [], ◌∷◌, ◌≡◌, refl, ap, ◌∙◌, ok, length,
  is_empty, u64_mod, sym, arith,
}
use mathlib.Core.Path.{subst}
use raft_ebpf.Common.{Heapless, candidate, leader, RequestVoteResponse}
use raft_ebpf.RaftLog.{current_term}
use raft_ebpf.RaftLog.Format.{Json}
use raft_ebpf.RaftLog.Recovery.{IsDurable}
use raft_ebpf.Node.State.{RaftNode, with_log_run}
use raft_ebpf.Node.Elect.{
  count_vote, stand_for_election, start_election, handle_request_vote_response,
}
use raft_ebpf.Node.Stand.{standing, stand_for_election_lem}
use raft_ebpf.Node.Election.{handle_request_vote_response_lem, log-handle}

module _ ⦃h : Heapless⦄ ⦃j : Json⦄ where
  first_vote :
      (from : String) (n : RaftNode) (me : String)
      → (me == from) ≡ false
      → n.votes_received ≡ me ∷ []
      → (count_vote from n).votes_received ≡ me ∷ from ∷ []
  first_vote from n me other own = rw (own, other) refl

  pub start_election_lem :
      (n : RaftNode)
      → n.log_held ≡ false
      → current_term n.log + 1 < u64_mod
      → is_empty n.peers ≡ false
      → n.log.disk.faults ≡ []
      → start_election n
        ≡ (ok tt, record (standing (record n { log_held = true })) { log_held = false })
  unfolding start_election
  start_election_lem n free room peers healthy =
      let held : RaftNode = record n { log_held = true } in
      rw (with_log_run stand_for_election n free (stand_for_election_lem held room healthy), peers)
        refl

  -- what a second vote in a small cluster does
  abbrev Leads : String → RequestVoteResponse → RaftNode → RaftNode → Type 0
  Leads from resp n n' =
      let (r, n'') = handle_request_vote_response from resp n' in
      (r ≡ ok tt)
      × (n''.role ≡ leader)
      × (current_term n''.log ≡ current_term n.log + 1)
      × (n''.votes_received ≡ n.node_id ∷ from ∷ [])

  Leads-standing :
      (from : String) (resp : RequestVoteResponse) (n n' : RaftNode)
      → n'.log_held ≡ false
      → n'.role ≡ candidate
      → n'.votes_received ≡ n.node_id ∷ []
      → length n'.peers ≤ 4
      → current_term n'.log ≡ current_term n.log + 1
      → (n.node_id == from) ≡ false
      → resp.term ≤ current_term n.log + 1
      → resp.vote_granted ≡ true
      → Leads from resp n n'
  Leads-standing from resp n n' free standing own few next other current granted =
      let current' : resp.term ≤ current_term n'.log = omega (arith, next, current) in
      let leads = handle_request_vote_response_lem from resp n' free standing current' granted in
      let votes = leads.1 ∙ first_vote from n' n.node_id other own in
      let two : length (handle_request_vote_response from resp n').1.votes_received ≡ 2 =
        ap length votes in
      (
        leads.0,
        leads.2 (omega (arith, two, few)),
        ap current_term (log-handle from resp n' free standing current' granted) ∙ next,
        votes,
      )

  -- A node with one to four peers stands for election; then a granted vote arrives from one peer,
  -- in any term up to the candidate's, so also in a term of an earlier election. The node leads in
  -- its new term, with two votes counted, its own and this one.
  pub single_vote-leads :
      (from : String) (resp : RequestVoteResponse) (n : RaftNode)
      → n.log_held ≡ false
      → current_term n.log + 1 < u64_mod
      → is_empty n.peers ≡ false
      → length n.peers ≤ 4
      → IsDurable n.log
      → (n.node_id == from) ≡ false
      → resp.term ≤ current_term n.log + 1
      → resp.vote_granted ≡ true
      → let n' = (start_election n).1 in
        let (r, n'') = handle_request_vote_response from resp n' in
        (r ≡ ok tt)
        × (n''.role ≡ leader)
        × (current_term n''.log ≡ current_term n.log + 1)
        × (n''.votes_received ≡ n.node_id ∷ from ∷ [])
  single_vote-leads from resp n free room peers few d other current granted =
      subst (λ x. Leads from resp n x.1) (sym (start_election_lem n free room peers d.healthy))
        (Leads-standing from resp n
          (record (standing (record n { log_held = true })) { log_held = false }) refl refl refl few
          refl other current granted)
