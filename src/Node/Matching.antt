-- ===== src/Node/Matching.antt =====
-- What `handle_append_entries` does to the log: it cuts at the first conflict and stores the batch.
use raft_ebpf.Prelude.{
  some-inj, ap, ℕ, ◌+◌, ◌≤◌, ◌<◌, max, number_eq, Bool, false, not, ◌≡◌, refl, ◌∙◌, Option, none,
  some, List, [], ◌∷◌, length, ok, All, eqb, ltb, ltb→lt, if◌then◌else◌, Bool-cases, Option-cases,
  inl, inr, arith,
}
use raft_ebpf.HashMap.Laws.{get-retain}
use raft_ebpf.Common.{Heapless, LogEntry}
use raft_ebpf.RaftLog.{RaftLog, entry_at, term_at}
use raft_ebpf.RaftLog.Format.{Json}
use raft_ebpf.RaftLog.RoundTrip.{Fits}
use raft_ebpf.RaftLog.Recovery.{IsDurable}
use raft_ebpf.RaftLog.Contiguous.{IsContiguous, CountsFrom}
use raft_ebpf.RaftLog.Truncate.{
  truncated, truncate_from_lem, truncate_from-IsContiguous, truncate_from-IsDurable,
}
use raft_ebpf.RaftLog.Durable.{append_entries-IsDurable}
use raft_ebpf.RaftLog.Growth.{append_entries-IsContiguous}
use raft_ebpf.Node.Adopt.{adopted}
use raft_ebpf.RaftLog.Durable.{with_term}
use raft_ebpf.Common.{AppendEntriesRequest}
use raft_ebpf.RaftLog.{current_term}
use raft_ebpf.Node.State.{RaftNode}
use raft_ebpf.Node.Follow.{delete_conflicts, store_new_entries}

abbrev pub differs : Option ℕ → ℕ → Bool
differs none term = false
differs (some t) term = not (eqb t term)

-- the first index of the batch at which the log has an entry of another term
unfoldable pub conflict : List LogEntry → RaftLog → Option ℕ
conflict [] log = none
conflict (e ∷ es) log =
    let rest = conflict es log in
    if differs (term_at log e.index) e.term then some e.index else rest

-- the index after the last entry that stays
abbrev pub kept_end : Option ℕ → RaftLog → ℕ
kept_end none log = log.last_index + 1
kept_end (some k) log = k

conflict_range :
    (start : ℕ) (es : List LogEntry) (log : RaftLog) (k : ℕ)
    → CountsFrom start es
    → IsContiguous log
    → conflict es log ≡ some k
    → (start ≤ k) × (k ≤ log.last_index)
unfolding conflict term_at
conflict_range start [] log k counts c e = absurd cc
conflict_range start (x ∷ es) log k counts c e =
    elim (Bool-cases (differs (term_at log x.index) x.term)) [
      | inl hit ↦
          let here : x.index ≡ k = some-inj x.index k (ground (arith, e)) in
          elim (Bool-cases (ltb log.last_index x.index)) [
            | inl past ↦
                absurd (ground (arith, c.beyond x.index, ltb→lt log.last_index x.index past))
            | inr inside ↦ (omega arith, ground arith)
          ]
      | inr miss ↦
          let (lo, hi) = conflict_range (start + 1) es log k counts.1 c (ground arith) in
          (omega arith, hi)
    ]

module _ ⦃h : Heapless⦄ ⦃j : Json⦄ where
  abbrev pub cut : Option ℕ → RaftLog → RaftLog
  cut none log = log
  cut (some k) log = truncated k log

  -- The loop cuts the log at the first conflict, and leaves it alone where there is none.
  delete_conflicts_lem :
      (es : List LogEntry) (log : RaftLog)
      → log.disk.faults ≡ []
      → delete_conflicts es log ≡ (ok tt, cut (conflict es log) log)
  unfolding delete_conflicts conflict
  delete_conflicts_lem [] log healthy = refl
  delete_conflicts_lem (e ∷ es) log healthy = elim (Option-cases (term_at log e.index)) [
    | inl absent ↦ rw absent (delete_conflicts_lem es log healthy)
    | inr (t, at) ↦ elim (Bool-cases (eqb t e.term)) [
      | inl same ↦ rw (at, same) (delete_conflicts_lem es log healthy)
      | inr other ↦ rw (at, other) (truncate_from_lem e.index log healthy)
    ]
  ]

  -- what storing a batch from `start` makes of a log
  pub record Stored (start : ℕ) (es : List LogEntry) (log after : RaftLog) : Type 0 where
    pub contiguous : IsContiguous after
    pub durable : IsDurable after
    pub stored : All (λ e. entry_at after e.index ≡ some e) es
    pub below : (k : ℕ) → k < start → entry_at after k ≡ entry_at log k
    pub above :
        (k : ℕ)
        → start + length es ≤ k
        → k < kept_end (conflict es log) log
        → entry_at after k ≡ entry_at log k
    pub last : after.last_index + 1 ≡ max (kept_end (conflict es log) log) (start + length es)

  cut_Stored :
      (start : ℕ) (found : Option ℕ) (log : RaftLog)
      → ((k : ℕ) → found ≡ some k → (start ≤ k) × (k ≤ log.last_index))
      → 1 ≤ start
      → start ≤ log.last_index + 1
      → IsDurable log
      → IsContiguous log
      → let log' = cut found log in
        IsContiguous log'
        × IsDurable log'
        × ((k : ℕ) → k < kept_end found log → entry_at log' k ≡ entry_at log k)
        × (log'.last_index + 1 ≡ kept_end found log)
        × (start ≤ kept_end found log)
  cut_Stored start none log range low near d c = (c, d, (λ k below. refl), refl, near)
  cut_Stored start (some i) log range low near d c =
      let (lo, hi) = range i refl in
      let e = truncate_from_lem i log d.healthy in
      (
        rw e at (truncate_from-IsContiguous i log d.healthy c (omega arith) (omega arith)),
        rw e at (truncate_from-IsDurable i log c (omega arith) (omega arith) d),
        (λ k below. get-retain (λ idx. ltb idx i) log.entries k ∙ ground arith),
        omega arith,
        lo,
      )

  -- A batch of consecutive entries, from an index that joins on to a contiguous log that is on
  -- disk: the call succeeds and leaves a contiguous log, on disk too, that holds the batch and has
  -- its old entries below the batch. It ends at the later of the end of the batch and of the first
  -- index at which an entry of the batch has another term than the log's, or the log's old end
  -- where there is none; old entries above the batch and below that index stay.
  pub store_new_entries-Stored :
      (start : ℕ) (es : List LogEntry) (log : RaftLog)
      → CountsFrom start es
      → 1 ≤ start
      → start ≤ log.last_index + 1
      → All Fits es
      → IsDurable log
      → IsContiguous log
      → let (r, log') = store_new_entries es log in (r ≡ ok tt) × Stored start es log log'
  unfolding store_new_entries conflict
  store_new_entries-Stored start [] log counts low near fits d c = (
    refl,
    record {
      contiguous = c;
      durable = d;
      stored = tt;
      below = λ k b. refl;
      above = λ k b u. refl;
      last = omega arith;
    },
  )
  store_new_entries-Stored start (e ∷ es) log counts low near fits d c =
      let batch = e ∷ es in
      let found = conflict batch log in
      let (c1, d1, same, end, join) =
        cut_Stored start found log (λ k hit. conflict_range start batch log k counts c hit) low near
          d c in
      let (c2, held) =
        append_entries-IsContiguous start batch (cut found log) counts low (omega arith) fits d1
          c1 in
      let (done, d2) = append_entries-IsDurable batch (cut found log) fits d1 in
      rw (delete_conflicts_lem batch log d.healthy) (
        done,
        record {
          contiguous = c2;
          durable = d2;
          stored = held.stored;
          below = λ k b. held.below k b ∙ same k (omega arith);
          above = λ k b u. held.above k b ∙ same k u;
          last = omega (arith, held.last);
        },
      )

  conflict-with_term :
      (es : List LogEntry) (term : ℕ) (log : RaftLog)
      → conflict es (with_term term log) ≡ conflict es log
  unfolding conflict term_at
  conflict-with_term [] term log = refl
  conflict-with_term (e ∷ es) term log =
      ap (λ (o : Option ℕ). if differs (term_at log e.index) e.term then some e.index else o)
        (conflict-with_term es term log)

  kept_end-with_term :
      (o : Option ℕ) (term : ℕ) (log : RaftLog) → kept_end o (with_term term log) ≡ kept_end o log
  kept_end-with_term none term log = refl
  kept_end-with_term (some k) term log = refl

  -- adopting a term leaves the entries alone
  pub Stored-adopted :
      (req : AppendEntriesRequest) (n : RaftNode) (start : ℕ) (es : List LogEntry) (after : RaftLog)
      → Stored start es (adopted req n).log after
      → Stored start es n.log after
  Stored-adopted req n start es after s = elim (Bool-cases (ltb (current_term n.log) req.term)) [
    | inl newer ↦
        let t : Stored start es (with_term req.term n.log) after = rw newer at s in
        record {
          contiguous = t.contiguous;
          durable = t.durable;
          stored = t.stored;
          below = t.below;
          above = λ k b u. t.above k b (
              rw
                (
                  kept_end-with_term (conflict es (with_term req.term n.log)) req.term n.log,
                  conflict-with_term es req.term n.log,
                )
                u);
          last =
              t.last
              ∙ ap (λ (i : ℕ). max i (start + length es))
                  (kept_end-with_term (conflict es (with_term req.term n.log)) req.term n.log
                    ∙ ap (λ (o : Option ℕ). kept_end o n.log)
                        (conflict-with_term es req.term n.log));
        }
    | inr same ↦ rw same at s
  ]
