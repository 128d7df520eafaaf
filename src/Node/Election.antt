-- ===== src/Node/Election.antt =====
-- `handle_request_vote_response`: when a candidate takes the lead.
use mathlib.Core.List.{Mem, Nodup}
use mathlib.Core.Path.{subst}
use raft_ebpf.Prelude.{
  ◌*◌, ◌∷◌, ◌↔◌, sym, ℕ, ◌+◌, ◌≤◌, ◌<◌, String, text_eq, true, false, ◌≡◌, refl, ap, ◌∙◌, ok,
  length, ltb, leb, leb→le, if◌then◌else◌, Bool-cases, inl, inr, arith,
}
use raft_ebpf.Common.{Heapless, NodeRole, same_role, candidate, leader, RequestVoteResponse}
use raft_ebpf.RaftLog.{current_term}
use raft_ebpf.RaftLog.Format.{Json}
use raft_ebpf.Node.State.{RaftNode, with_log_run}
use raft_ebpf.Node.Commit.{majority, Next, finish, go_on}
use raft_ebpf.Node.Elect.{contains, count_vote, read_vote_response, handle_request_vote_response}
use raft_ebpf.Node.Counting.{count_vote-Nodup, mem-count_vote}
use raft_ebpf.Node.Lead.{become_leader_lem}

not_leb : (a b : ℕ) → leb a b ≡ false → b < a
not_leb a b above = ground arith

module _ ⦃h : Heapless⦄ ⦃j : Json⦄ where
  -- whether the code sees a majority
  abbrev next_of : RaftNode → Next
  next_of n = if leb (majority n) (length n.votes_received + 1) then go_on else finish

  pub read_granted :
      (from : String) (resp : RequestVoteResponse) (n : RaftNode)
      → n.role ≡ candidate
      → ltb (current_term n.log) resp.term ≡ false
      → resp.vote_granted ≡ true
      → read_vote_response from resp n ≡ (ok (next_of (count_vote from n)), count_vote from n)
  unfolding read_vote_response
  read_granted from resp n standing current granted =
      let is_candidate : same_role n.role candidate ≡ true =
        ap (λ (r : NodeRole). same_role r candidate) standing in
      rw (is_candidate, current, granted) refl

  role-count_vote : (from : String) (n : RaftNode) → (count_vote from n).role ≡ n.role
  role-count_vote from n = ground arith

  -- the guard has no part in the count
  votes-held :
      (from : String) (n : RaftNode)
      → (count_vote from (record n { log_held = true })).votes_received
        ≡ (count_vote from n).votes_received
  votes-held from n = elim (Bool-cases (contains n.votes_received from)) [
    | inl before ↦ rw before
    | inr new ↦ rw new
  ]

  majority-count_vote : (from : String) (n : RaftNode) → majority (count_vote from n) ≡ majority n
  majority-count_vote from n = elim (Bool-cases (contains n.votes_received from)) [
    | inl before ↦ rw before
    | inr new ↦ rw new
  ]

  pub handle_request_vote_response_lem :
      (from : String) (resp : RequestVoteResponse) (n : RaftNode)
      → n.log_held ≡ false
      → n.role ≡ candidate
      → resp.term ≤ current_term n.log
      → resp.vote_granted ≡ true
      → let (r, n') = handle_request_vote_response from resp n in
        (r ≡ ok tt)
        × (n'.votes_received ≡ (count_vote from n).votes_received)
        × (majority n ≤ length n'.votes_received + 1 → n'.role ≡ leader)
        × (length n'.votes_received + 1 < majority n → n'.role ≡ candidate)
  unfolding handle_request_vote_response
  handle_request_vote_response_lem from resp n free standing current granted =
      let held : RaftNode = record n { log_held = true } in
      let counted = count_vote from held in
      let role : counted.role ≡ candidate = role-count_vote from held ∙ standing in
      let size : majority counted ≡ majority n = majority-count_vote from held in
      let current_lem : ltb (current_term n.log) resp.term ≡ false = ground arith in
      rw
        (with_log_run (read_vote_response from resp) n free
          (read_granted from resp held standing current_lem granted))
        (elim (Bool-cases (leb (majority counted) (length counted.votes_received + 1))) [
          | inl wins ↦
              let enough = leb→le (majority counted) (length counted.votes_received + 1) wins in
              rw (wins, become_leader_lem (record counted { log_held = false }) refl)
                (
                  refl,
                  votes-held from n,
                  (λ most. refl),
                  λ less. absurd (omega (arith, enough, size)),
                )
          | inr waits ↦
              let few = not_leb (majority counted) (length counted.votes_received + 1) waits in
              rw waits
                (refl, votes-held from n, (λ most. absurd (omega (arith, few, size))), λ less. role)
        ])

  log-count_vote : (from : String) (n : RaftNode) → (count_vote from n).log ≡ n.log
  log-count_vote from n = ground arith

  -- the log of a candidate that is granted a vote
  pub log-handle :
      (from : String) (resp : RequestVoteResponse) (n : RaftNode)
      → n.log_held ≡ false
      → n.role ≡ candidate
      → resp.term ≤ current_term n.log
      → resp.vote_granted ≡ true
      → (handle_request_vote_response from resp n).1.log ≡ n.log
  unfolding handle_request_vote_response
  log-handle from resp n free standing current granted =
      let held : RaftNode = record n { log_held = true } in
      let counted = count_vote from held in
      let current_lem : ltb (current_term n.log) resp.term ≡ false = ground arith in
      rw
        (with_log_run (read_vote_response from resp) n free
          (read_granted from resp held standing current_lem granted))
        (elim (Bool-cases (leb (majority counted) (length counted.votes_received + 1))) [
          | inl wins ↦
              rw (wins, become_leader_lem (record counted { log_held = false }) refl)
                (log-count_vote from held)
          | inr waits ↦ rw waits (log-count_vote from held)
        ])

  -- A candidate that is granted a vote in a term not above its own, with the log's mutex free and no
  -- voter counted twice so far, counts the sender unless it is counted already, and nobody else; so
  -- still no voter is counted twice. It leads if twice the number of its counted votes and one more
  -- is above the number of nodes, and else it stays a candidate. The log is as it was. The election
  -- starts with its own vote counted, so the one more counts that vote a second time.
  pub handle_request_vote_response-leads :
      (from : String) (resp : RequestVoteResponse) (n : RaftNode)
      → n.log_held ≡ false
      → n.role ≡ candidate
      → resp.term ≤ current_term n.log
      → resp.vote_granted ≡ true
      → Nodup n.votes_received
      → let (r, n') = handle_request_vote_response from resp n in
        (r ≡ ok tt)
        × Nodup n'.votes_received
        × ((voter : String) → Mem voter n'.votes_received ↔ Mem voter (from ∷ n.votes_received))
        × (length n.peers + 1 < 2 * (length n'.votes_received + 1) → n'.role ≡ leader)
        × (2 * (length n'.votes_received + 1) ≤ length n.peers + 1 → n'.role ≡ candidate)
        × (n'.log ≡ n.log)
  handle_request_vote_response-leads from resp n free standing current granted once =
      let n' = (handle_request_vote_response from resp n).1 in
      let run = handle_request_vote_response_lem from resp n free standing current granted in
      (
        run.0,
        subst Nodup (sym run.1) (count_vote-Nodup from n once),
        (λ voter.
            subst (λ l. Mem voter l ↔ Mem voter (from ∷ n.votes_received)) (sym run.1)
              (mem-count_vote from n voter)),
        (λ most. run.2 (omega arith)),
        (λ less. run.3 (omega arith)),
        log-handle from resp n free standing current granted,
      )
