-- ===== src/Node/Replicate.antt =====
-- A leader's AppendEntries and what a follower makes of it.
use raft_ebpf.Prelude.{
  ℕ, ◌+◌, ◌≤◌, ◌<◌, String, text_eq, number_eq, eqb, true, false, ◌≡◌, refl, sym, ◌∙◌, some, List,
  [], ◌∷◌, length, ok, All, Bool-cases, inl, inr, eqb_iff, arith,
}
use mathlib.Core.Path.{subst}
use raft_ebpf.HashMap.{get}
use raft_ebpf.Common.{Heapless, LogEntry}
use raft_ebpf.RaftLog.{RaftLog, current_term, entry_at, has_entry}
use raft_ebpf.RaftLog.Format.{Json}
use raft_ebpf.RaftLog.RoundTrip.{Fits}
use raft_ebpf.RaftLog.Recovery.{IsDurable}
use raft_ebpf.RaftLog.Contiguous.{IsContiguous, CountsFrom}
use raft_ebpf.Node.State.{RaftNode}
use raft_ebpf.Node.Heartbeat.{request_for}
use raft_ebpf.Node.Follow.{handle_append_entries}
use raft_ebpf.Node.Matching.{conflict, kept_end}
use raft_ebpf.Node.Accept.{IsAcceptable, handle_append_entries-accepts}
use raft_ebpf.Node.Request.{request_for-joins}

-- two logs that both hold a batch agree over its indices
same_batch :
    (start : ℕ) (es : List LogEntry) (a b : RaftLog)
    → CountsFrom start es
    → All (λ e. entry_at a e.index ≡ some e) es
    → All (λ e. entry_at b e.index ≡ some e) es
    → (k : ℕ) → start ≤ k
    → k < start + length es
    → entry_at a k ≡ entry_at b k
same_batch start [] a b counts in_a in_b k low high = absurd (omega arith)
same_batch start (e ∷ es) a b counts in_a in_b k low high = elim (Bool-cases (eqb start k)) [
  | inl here ↦
      let at : e.index ≡ k = counts.0 ∙ (eqb_iff start k).0 here in
      subst (λ (i : ℕ). entry_at a i ≡ entry_at b i) at (in_a.0 ∙ sym in_b.0)
  | inr later ↦ same_batch (start + 1) es a b counts.1 in_a.1 in_b.1 k (ground arith) (omega arith)
]

module _ ⦃h : Heapless⦄ ⦃j : Json⦄ where
  request_for-term :
      (n : RaftNode) (peer_id : String) → (request_for n peer_id).term ≡ current_term n.log
  unfolding request_for
  request_for-term n peer_id = refl

  -- A leader with a contiguous log builds a request for a peer whose next index is in the log or
  -- right after it. A follower of no newer term that has the request's previous entry takes it,
  -- where its mutex is free, its log is contiguous and in step with its files, the entries are
  -- within the capacities, no more is applied than committed, and no committed entry conflicts
  -- with the request. Then the two logs have the same entries at all indices of the request.
  pub request_for-replicates :
      (lead follow : RaftNode) (peer_id from : String) (next : ℕ)
      → get lead.next_index peer_id ≡ some next
      → 1 ≤ next
      → next ≤ lead.log.last_index + 1
      → next ≤ follow.log.last_index + 1
      → IsContiguous lead.log
      → IsContiguous follow.log
      → IsDurable follow.log
      → follow.log_held ≡ false
      → follow.last_applied ≤ follow.commit_index
      → current_term follow.log ≤ current_term lead.log
      → has_entry
          (request_for lead peer_id).prev_log_index
          (request_for lead peer_id).prev_log_term
          follow.log
        ≡ true
      → All Fits (request_for lead peer_id).entries
      → follow.commit_index
        < kept_end (conflict (request_for lead peer_id).entries follow.log) follow.log
      → let req = request_for lead peer_id in
        let (r, follow') = handle_append_entries from req follow in
        (r ≡ ok tt)
        × ((k : ℕ)
            → next ≤ k
            → k < next + length req.entries
            → entry_at follow'.log k ≡ entry_at lead.log k)
  request_for-replicates lead follow peer_id from next known low high near cl cf d free behind fresh
        prev fits safe =
      let req = request_for lead peer_id in
      let (joins, has, counts, size, known_entries) =
        request_for-joins lead peer_id next known low high cl in
      let a : IsAcceptable req follow = record {
        fresh = omega (arith, request_for-term lead peer_id);
        prev = prev;
        reach = omega arith;
        counts = subst (λ (i : ℕ). CountsFrom i req.entries) (sym joins) counts;
        fits = fits;
        safe = safe;
      } in
      let (done, taken) = handle_append_entries-accepts from req follow free behind a d cf in
      (
        done,
        same_batch next req.entries (handle_append_entries from req follow).1.log lead.log counts
            taken.stored.stored known_entries,
      )
