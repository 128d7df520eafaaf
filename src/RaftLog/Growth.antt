-- ===== src/RaftLog/Growth.antt =====
-- `append` and `append_entries`: what they add to a contiguous log, and what they leave alone.
use raft_ebpf.Prelude.{
  ℕ, ◌+◌, ◌≤◌, ◌<◌, max, number_eq, ◌==◌, ◌≡◌, refl, ◌∙◌, String, some, List, [], ◌∷◌, length, All,
  eqb_iff, u64_mod, Bool-cases, inl, inr, arith,
}
use raft_ebpf.HashMap.{get, insert}
use raft_ebpf.HashMap.Laws.{get-insert}
use raft_ebpf.Common.{Heapless, Command, LogEntry}
use raft_ebpf.RaftLog.{RaftLog, entry_at, store_entry, append_line, append, append_entries}
use raft_ebpf.RaftLog.Files.{linked}
use raft_ebpf.RaftLog.Format.{Json}
use raft_ebpf.RaftLog.RoundTrip.{Fits, line_of}
use raft_ebpf.RaftLog.Recovery.{IsDurable}
use raft_ebpf.RaftLog.Contiguous.{IsContiguous, CountsFrom}
use raft_ebpf.RaftLog.Durable.{append_lem, append_entry_lem, stored_entry-IsDurable}

stored_present :
    (e : LogEntry) (log : RaftLog)
    → IsContiguous log
    → 1 ≤ e.index
    → (k : ℕ) → 1 ≤ k
    → k ≤ max log.last_index e.index
    → e.index ≤ log.last_index + 1
    → (x : LogEntry) × (get (insert log.entries e.index e) k ≡ some x) × (x.index ≡ k)
stored_present e log c low k lo hi near = elim (Bool-cases (e.index == k)) [
  | inl hit ↦ (e, ground (arith, get-insert log.entries e.index k e), (eqb_iff e.index k).0 hit)
  | inr miss ↦
      let (x, at, named) = c.present k lo (ground arith) in
      (x, ground (arith, get-insert log.entries e.index k e), named)
]

store_entry-IsContiguous :
    (e : LogEntry) (log : RaftLog)
    → IsContiguous log
    → 1 ≤ e.index
    → e.index ≤ log.last_index + 1
    → IsContiguous (store_entry e log)
store_entry-IsContiguous e log c low near = record {
  no_zero = ground (arith, get-insert log.entries e.index 0 e, c.no_zero);
  present = λ k lo hi. stored_present e log c low k lo hi near;
  beyond = λ k hi. ground (arith, get-insert log.entries e.index k e, c.beyond k);
}

append_line-IsContiguous :
    (line : String) (log : RaftLog) → IsContiguous log → IsContiguous (append_line linked line log)
append_line-IsContiguous line log c = record {
  no_zero = c.no_zero;
  present = c.present;
  beyond = c.beyond;
}

-- the entries of a batch that starts at `start` are in the log, and no other is changed
pub record Holds (start : ℕ) (es : List LogEntry) (before after : RaftLog) : Type 0 where
  pub stored : All (λ e. entry_at after e.index ≡ some e) es
  pub below : (k : ℕ) → k < start → entry_at after k ≡ entry_at before k
  pub above : (k : ℕ) → start + length es ≤ k → entry_at after k ≡ entry_at before k
  pub last : after.last_index + 1 ≡ max (before.last_index + 1) (start + length es)

module _ ⦃h : Heapless⦄ ⦃j : Json⦄ where
  -- A proposal lengthens a contiguous log by one.
  pub append-IsContiguous :
      (term : ℕ) (c : Command) (log : RaftLog)
      → log.last_index + 1 < u64_mod
      → IsDurable log
      → IsContiguous log
      → IsContiguous (append term c log).1
  append-IsContiguous term c log room d contiguous =
      let e : LogEntry = record { index = log.last_index + 1; term = term; command = c } in
      let m : max log.last_index (log.last_index + 1) ≡ log.last_index + 1 = omega arith in
      rw (append_lem term c log room d) (
        rw m at (
          store_entry-IsContiguous e (append_line linked (line_of e) log)
            (append_line-IsContiguous (line_of e) log contiguous) (omega arith) (omega arith)))

  -- the first entry of a batch, in front of what the rest does
  Holds-cons :
      (start : ℕ) (e : LogEntry) (es : List LogEntry) (line : String) (log after : RaftLog)
      → e.index ≡ start
      → start ≤ log.last_index + 1
      → Holds (start + 1) es (store_entry e (append_line linked line log)) after
      → Holds start (e ∷ es) log after
  Holds-cons start e es line log after named near held = record {
    stored = (
      held.below e.index (omega arith) ∙ ground (arith, get-insert log.entries e.index e.index e),
      held.stored,
    );
    below = λ k hi. held.below k (omega arith) ∙ ground (arith, get-insert log.entries e.index k e);
    above = λ k hi. held.above k (omega arith) ∙ ground (arith, get-insert log.entries e.index k e);
    last = omega (arith, held.last);
  }

  -- A batch of consecutive entries that joins on to a contiguous log, or overlaps it, leaves a
  -- contiguous log that holds the batch, has its old entries elsewhere, and ends at the
  -- later of its old end and the end of the batch.
  pub append_entries-IsContiguous :
      (start : ℕ) (es : List LogEntry) (log : RaftLog)
      → CountsFrom start es
      → 1 ≤ start
      → start ≤ log.last_index + 1
      → All Fits es
      → IsDurable log
      → IsContiguous log
      → let log' = (append_entries es log).1 in IsContiguous log' × Holds start es log log'
  unfolding append_entries
  append_entries-IsContiguous start [] log counts low near fits d c =
      (c, record { stored = tt; below = λ k hi. refl; above = λ k hi. refl; last = omega arith })
  append_entries-IsContiguous start (e ∷ es) log counts low near fits d c =
      let saved = append_line linked (line_of e) log in
      let next = store_entry e saved in
      let (contiguous, held) =
        append_entries-IsContiguous (start + 1) es next counts.1 (omega arith)
          (omega (arith, counts.0)) fits.1 (stored_entry-IsDurable e log fits.0 d)
          (store_entry-IsContiguous e saved (append_line-IsContiguous (line_of e) log c)
            (omega (arith, counts.0)) (omega (arith, counts.0))) in
      rw (append_entry_lem e log d)
        (contiguous, Holds-cons start e es (line_of e) log _ counts.0 near held)
