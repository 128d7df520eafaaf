-- ===== src/Node/Request.antt =====
-- The AppendEntries that a leader builds for a peer.
use raft_ebpf.Prelude.{
  ℕ, zero, suc, ◌+◌, ◌-◌, ◌≤◌, min, String, text_eq, number_eq, true, ◌≡◌, refl, ap, ◌∙◌, some,
  List, [], ◌∷◌, length, take, All, unwrap_or, arith,
}
use raft_ebpf.HashMap.{HashMap, get}
use raft_ebpf.Common.{Heapless, LogEntry}
use raft_ebpf.RaftLog.{RaftLog, entry_at, term_at, has_entry, collect_entries, get_entries}
use raft_ebpf.RaftLog.Contiguous.{IsContiguous, CountsFrom, HasRange, get_entries_lem}
use raft_ebpf.Node.State.{RaftNode}
use raft_ebpf.Node.Heartbeat.{request_for}

length-take_lem : {A : Type 0} (n : ℕ) (xs : List A) → length (take n xs) ≡ min n (length xs)
length-take_lem zero xs = omega arith
length-take_lem (suc n) [] = omega arith
length-take_lem (suc n) (x ∷ xs) = omega (arith, length-take_lem n xs)

CountsFrom-take :
    (n start : ℕ) (es : List LogEntry) → CountsFrom start es → CountsFrom start (take n es)
CountsFrom-take zero start es counts = tt
CountsFrom-take (suc n) start [] counts = tt
CountsFrom-take (suc n) start (e ∷ es) counts =
    (counts.0, CountsFrom-take n (start + 1) es counts.1)

All-take : {A : Type 0} (P : A → Type 0) (n : ℕ) (xs : List A) → All P xs → All P (take n xs)
All-take P zero xs all = tt
All-take P (suc n) [] all = tt
All-take P (suc n) (x ∷ xs) all = (all.0, All-take P n xs all.1)

-- what the range collects are the map's entries, each under its own index
collect_entries-All :
    (n start : ℕ) (m : HashMap ℕ LogEntry)
    → HasRange n start m
    → All (λ e. get m e.index ≡ some e) (collect_entries n start m)
unfolding collect_entries
collect_entries-All zero start m all = tt
collect_entries-All (suc n) start m all =
    let (e, at, named) = all start (omega arith) (omega arith) in
    rw at (
      ap (get m) named ∙ at,
      collect_entries-All n (start + 1) m (λ k lo hi. all k (omega arith) (omega arith)),
    )

prev_known :
    (log : RaftLog) (prev : ℕ)
    → IsContiguous log
    → prev ≤ log.last_index
    → has_entry prev (unwrap_or (term_at log prev) 0) log ≡ true
unfolding has_entry term_at
prev_known log zero c known = rw c.no_zero refl
prev_known log (suc k) c known =
    let (e, at, named) = c.present (suc k) (omega arith) known in rw at (ground arith)

module _ ⦃h : Heapless⦄ where
  -- To a peer whose next index is in the log or right after it, a leader with a contiguous log
  -- sends the entry's predecessor as it stands in its own log, and the entries from that index on,
  -- in order, up to 64 of them.
  pub request_for-joins :
      (n : RaftNode) (peer_id : String) (next : ℕ)
      → get n.next_index peer_id ≡ some next
      → 1 ≤ next
      → next ≤ n.log.last_index + 1
      → IsContiguous n.log
      → let req = request_for n peer_id in
        (req.prev_log_index + 1 ≡ next)
        × (has_entry req.prev_log_index req.prev_log_term n.log ≡ true)
        × CountsFrom next req.entries
        × (length req.entries ≡ min 64 (n.log.last_index + 1 - next))
        × All (λ e. entry_at n.log e.index ≡ some e) req.entries
  unfolding request_for get_entries
  request_for-joins n peer_id next known low high c =
      let es = get_entries next n.log.last_index n.log in
      let (counted, ordered) =
        get_entries_lem next n.log.last_index n.log c low high (omega arith) in
      rw known (
        omega arith,
        prev_known n.log (next - 1) c (omega arith),
        CountsFrom-take 64 next es ordered,
        length-take_lem 64 es ∙ ap (min 64) counted,
        All-take (λ e. entry_at n.log e.index ≡ some e) 64 es
            (collect_entries-All (n.log.last_index + 1 - next) next n.log.entries
              (λ k lo hi. c.present k (omega arith) (omega arith))),
      )
