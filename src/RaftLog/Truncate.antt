-- ===== src/RaftLog/Truncate.antt =====
-- `truncate_from`: what it removes, in memory and on disk.
use mathlib.Core.List.{append-nil, append_assoc}
use mathlib.Core.Path.{subst}
use raft_ebpf.Prelude.{
  ℕ, zero, suc, ◌+◌, ◌-◌, ◌≤◌, String, number_eq, ◌==◌, ◌≡◌, refl, sym, ap, ◌∙◌, Option, none, some,
  List, [], ◌∷◌, ◌++◌, map, ok, All, bind_ok, ltb, leb, ◌&&◌, if◌then◌else◌, Option-cases,
  Bool-cases, inl, inr, arith,
}
use raft_ebpf.HashMap.{HashMap, get, insert, retain}
use raft_ebpf.HashMap.Laws.{get-insert, get-retain}
use raft_ebpf.Common.{Heapless, LogEntry}
use raft_ebpf.RaftLog.{
  RaftLog, io, copy_entry, copy_range, collect_entry, collect_entries, truncate_from, rename_tmp,
}
use raft_ebpf.RaftLog.Files.{linked}
use raft_ebpf.RaftLog.Format.{Json}
use raft_ebpf.RaftLog.RoundTrip.{Fits, line_of, to_line_lem}
use raft_ebpf.RaftLog.Loading.{io_ok}
use raft_ebpf.RaftLog.Recovery.{IsDurable, replay_entries}
use raft_ebpf.RaftLog.Contiguous.{IsContiguous, HasRange, replay_collect, top_collect}

abbrev with_tmp : List String → RaftLog → RaftLog
with_tmp t log = record log { disk = record log.disk { log_tmp = some t } }

-- an entry that a replay has found is one that was written
Fits-replay :
    (es : List LogEntry) (m : HashMap ℕ LogEntry)
    → All Fits es
    → ((k : ℕ) (e : LogEntry) → get m k ≡ some e → Fits e)
    → (k : ℕ) (e : LogEntry) → get (replay_entries es m) k ≡ some e
    → Fits e
Fits-replay [] m fits old = old
Fits-replay (x ∷ es) m fits old = Fits-replay es (insert m x.index x) fits.1 λ k e at.
    elim (Bool-cases (x.index == k)) [
      | inl hit ↦
          let same : x ≡ e = ground (arith, get-insert m x.index k x) in
          subst (λ (y : LogEntry). Fits y) same fits.0
      | inr miss ↦ old k e (ground (arith, get-insert m x.index k x))
    ]

Fits-collect :
    (n start : ℕ) (m : HashMap ℕ LogEntry)
    → ((k : ℕ) (e : LogEntry) → get m k ≡ some e → Fits e)
    → All Fits (collect_entries n start m)
unfolding collect_entries
Fits-collect zero start m all = tt
Fits-collect (suc n) start m all = elim (Option-cases (get m start)) [
  | inl absent ↦ rw absent (Fits-collect n (start + 1) m all)
  | inr (e, at) ↦ rw at (all start e at, Fits-collect n (start + 1) m all)
]

module _ ⦃h : Heapless⦄ ⦃j : Json⦄ where
  copy_entry_lem :
      (o : Option LogEntry) (t : List String) (rest : List LogEntry) (log : RaftLog)
      → log.disk.faults ≡ []
      → (t' : List String) × (copy_entry o (with_tmp t log) ≡ (ok tt, with_tmp t' log))
        × (t' ++ map line_of rest ≡ t ++ map line_of (collect_entry o rest))
  unfolding copy_entry
  copy_entry_lem none t rest log healthy = (t, refl, refl)
  copy_entry_lem (some e) t rest log healthy = (
    t ++ line_of e ∷ [],
    rw (to_line_lem e, io_ok (with_tmp t log) healthy),
    append_assoc t (line_of e ∷ []) (map line_of rest),
  )

  copy_range_lem :
      (n start : ℕ) (t : List String) (log : RaftLog)
      → log.disk.faults ≡ []
      → copy_range n start (with_tmp t log)
        ≡ (ok tt, with_tmp (t ++ map line_of (collect_entries n start log.entries)) log)
  unfolding copy_range collect_entries
  copy_range_lem zero start t log healthy = rw append-nil
  copy_range_lem (suc n) start t log healthy =
      let (t', copied, same) =
        copy_entry_lem (get log.entries start) t (collect_entries n (start + 1) log.entries) log
          healthy in
      bind_ok (copy_entry (get log.entries start)) _ copied
      ∙ copy_range_lem n (start + 1) t' log healthy
      ∙ ap (λ (x : List String). (ok tt, with_tmp x log)) same

  abbrev pub retained : ℕ → RaftLog → HashMap ℕ LogEntry
  retained from log = retain (λ idx. ltb idx from) log.entries

  abbrev pub truncated : ℕ → RaftLog → RaftLog
  truncated from log = record log {
    entries = retained from log;
    last_index = from - 1;
    log_file = some linked;
    disk = record log.disk {
      log_jsonl = some (map line_of (collect_entries (from - 1) 1 (retained from log)));
      log_tmp = none;
    };
  }

  pub truncate_from_lem :
      (from : ℕ) (log : RaftLog)
      → log.disk.faults ≡ []
      → truncate_from from log ≡ (ok tt, truncated from log)
  unfolding truncate_from
  truncate_from_lem from log healthy =
      let kept : RaftLog = record log { entries = retained from log; last_index = from - 1 } in
      bind_ok io _ (io_ok kept healthy)
      ∙ bind_ok (copy_range (from - 1) 1) _ (copy_range_lem (from - 1) 1 [] kept healthy)
      ∙ bind_ok io _ (
          io_ok (with_tmp (map line_of (collect_entries (from - 1) 1 (retained from log))) kept)
            healthy)
      ∙ bind_ok io _ (
          io_ok
            (rename_tmp
              (with_tmp (map line_of (collect_entries (from - 1) 1 (retained from log))) kept))
            healthy)

  retained_range :
      (from : ℕ) (log : RaftLog)
      → IsContiguous log
      → from ≤ log.last_index + 1
      → HasRange (from - 1) 1 (retained from log)
  retained_range from log c high k lo hi =
      let (e, at, named) = c.present k lo (omega arith) in
      (e, get-retain (λ idx. ltb idx from) log.entries k ∙ ground arith, named)

  retained_content :
      (from : ℕ) (log : RaftLog)
      → IsContiguous log
      → 1 ≤ from
      → (k : ℕ)
      → get (retained from log) k
        ≡ (if leb 1 k && ltb k (1 + (from - 1)) then get (retained from log) k else none)
  retained_content from log c low zero =
      get-retain (λ idx. ltb idx from) log.entries 0 ∙ ground (arith, c.no_zero)
  retained_content from log c low (suc k) =
      ground (arith, get-retain (λ idx. ltb idx from) log.entries (suc k))

  Fits-retained :
      (from : ℕ) (log : RaftLog)
      → IsDurable log
      → (k : ℕ) (e : LogEntry) → get (retained from log) k ≡ some e
      → Fits e
  Fits-retained from log d k e at =
      Fits-replay d.written [] d.fits (λ i x none_at. cc) k e
        (sym (d.content k) ∙ ground (arith, get-retain (λ idx. ltb idx from) log.entries k))

  -- Cutting a contiguous log leaves a contiguous log that ends before the cut.
  pub truncate_from-IsContiguous :
      (from : ℕ) (log : RaftLog)
      → log.disk.faults ≡ []
      → IsContiguous log
      → 1 ≤ from
      → from ≤ log.last_index + 1
      → IsContiguous (truncate_from from log).1
  truncate_from-IsContiguous from log healthy c low high =
      rw (truncate_from_lem from log healthy) (record {
        no_zero = get-retain (λ idx. ltb idx from) log.entries 0 ∙ ground (arith, c.no_zero);
        present = λ k lo hi. retained_range from log c high k lo (omega arith);
        beyond = λ k hi. get-retain (λ idx. ltb idx from) log.entries k ∙ ground arith;
      })

  -- What is cut is cut on disk too.
  pub truncate_from-IsDurable :
      (from : ℕ) (log : RaftLog)
      → IsContiguous log
      → 1 ≤ from
      → from ≤ log.last_index + 1
      → IsDurable log
      → IsDurable (truncate_from from log).1
  truncate_from-IsDurable from log c low high d =
      let range = retained_range from log c high in
      rw (truncate_from_lem from log d.healthy) (record {
        written = collect_entries (from - 1) 1 (retained from log);
        healthy = d.healthy;
        handle = refl;
        file = refl;
        fits = Fits-collect (from - 1) 1 (retained from log) (Fits-retained from log d);
        content = λ k.
            retained_content from log c low k
            ∙ sym (replay_collect (from - 1) 1 (retained from log) [] range k);
        last = omega (arith, top_collect (from - 1) 1 0 (retained from log) range refl);
        state = d.state;
      })
