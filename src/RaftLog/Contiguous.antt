-- ===== src/RaftLog/Contiguous.antt =====
-- The log has an entry at each index from 1 to the last, under its own index, and no other.
use raft_ebpf.Prelude.{
  ℕ, zero, suc, ◌+◌, ◌-◌, ◌≤◌, ◌<◌, max, number_eq, ◌&&◌, ◌≡◌, refl, sym, ap, ◌∙◌, Option, none,
  some, List, [], ◌∷◌, length, ltb, leb, eqb_iff, if◌then◌else◌, Bool-cases, eqb, inl, inr, arith,
}
use raft_ebpf.HashMap.{HashMap, get, insert}
use raft_ebpf.HashMap.Laws.{get-insert}
use raft_ebpf.Common.{LogEntry}
use raft_ebpf.RaftLog.{RaftLog, collect_entries, get_entries}
use raft_ebpf.RaftLog.Recovery.{replay_entries, top}

pub record IsContiguous (log : RaftLog) : Type 0 where
  pub no_zero : get log.entries 0 ≡ none
  pub present :
      (k : ℕ)
      → 1 ≤ k
      → k ≤ log.last_index
      → (e : LogEntry) × (get log.entries k ≡ some e) × (e.index ≡ k)
  pub beyond : (k : ℕ) → log.last_index < k → get log.entries k ≡ none

-- the indices of the list count up from `start`
abbrev pub CountsFrom : ℕ → List LogEntry → Type 0
CountsFrom start [] = Unit
CountsFrom start (e ∷ es) = (e.index ≡ start) × CountsFrom (start + 1) es

-- the map has an entry at each index from `start` to `start + n - 1`
abbrev pub HasRange : ℕ → ℕ → HashMap ℕ LogEntry → Type 0
HasRange n start m =
    (k : ℕ) → start ≤ k → k < start + n → (e : LogEntry) × (get m k ≡ some e) × (e.index ≡ k)

pub collect_lem :
    (n start : ℕ) (m : HashMap ℕ LogEntry)
    → HasRange n start m
    → (length (collect_entries n start m) ≡ n) × CountsFrom start (collect_entries n start m)
unfolding collect_entries
collect_lem zero start m all = (refl, tt)
collect_lem (suc n) start m all =
    let (e, at, named) = all start (omega arith) (omega arith) in
    let (counted, ordered) =
      collect_lem n (start + 1) m (λ k lo hi. all k (omega arith) (omega arith)) in
    rw at (ap suc counted, (named, ordered))

-- one entry more in front of the range
range_step :
    (n start k : ℕ) (m acc : HashMap ℕ LogEntry) (found : Option LogEntry) (e : LogEntry)
    → get m start ≡ some e
    → e.index ≡ start
    → found ≡ (
        if leb (start + 1) k && ltb k (start + 1 + n)
        then get m k
        else get (insert acc e.index e) k)
    → found ≡ (if leb start k && ltb k (start + suc n) then get m k else get acc k)
range_step n start k m acc found e at named ih = elim (Bool-cases (eqb start k)) [
  | inl same ↦
      let hit : get m k ≡ some e = ap (get m) (sym ((eqb_iff start k).0 same)) ∙ at in
      ground (arith, get-insert acc e.index k e)
  | inr other ↦ ground (arith, get-insert acc e.index k e)
]

pub replay_collect :
    (n start : ℕ) (m acc : HashMap ℕ LogEntry)
    → HasRange n start m
    → (k : ℕ)
    → get (replay_entries (collect_entries n start m) acc) k
      ≡ (if leb start k && ltb k (start + n) then get m k else get acc k)
unfolding collect_entries
replay_collect zero start m acc all k = ground arith
replay_collect (suc n) start m acc all k =
    let (e, at, named) = all start (omega arith) (omega arith) in
    let ih =
      replay_collect n (start + 1) m (insert acc e.index e)
        (λ i lo hi. all i (omega arith) (omega arith)) k in
    rw at (range_step n start k m acc _ e at named ih)

pub top_collect :
    (n start t : ℕ) (m : HashMap ℕ LogEntry)
    → HasRange n start m
    → t + 1 ≡ start
    → top (collect_entries n start m) t + 1 ≡ start + n
unfolding collect_entries
top_collect zero start t m all e = omega arith
top_collect (suc n) start t m all below =
    let (e, at, named) = all start (omega arith) (omega arith) in
    let ih =
      top_collect n (start + 1) (max t e.index) m (λ i lo hi. all i (omega arith) (omega arith))
        (omega arith) in
    rw at (omega (arith, ih))

-- On a contiguous log `get_entries` returns the entries from the first index to the last, all of
-- them, in order.
pub get_entries_lem :
    (first last : ℕ) (log : RaftLog)
    → IsContiguous log
    → 1 ≤ first
    → first ≤ last + 1
    → last ≤ log.last_index
    → (length (get_entries first last log) ≡ last + 1 - first)
      × CountsFrom first (get_entries first last log)
unfolding get_entries
get_entries_lem first last log c low order high =
    collect_lem (last + 1 - first) first log.entries
      (λ k lo hi. c.present k (omega arith) (omega arith))
