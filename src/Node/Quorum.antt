-- ===== src/Node/Quorum.antt =====
-- `try_advance_commit_index`: which index the leader commits.
use mathlib.Core.Path.{subst}
use raft_ebpf.Prelude.{
  some-inj, ℕ, zero, suc, ◌+◌, ◌-◌, ◌≤◌, ◌<◌, unwrap_or, ◌↔◌, leb→le, Result, err, blocked,
  number_eq, text_eq, true, false, ◌≡◌, refl, ap, Option, none, some, List, [], ◌∷◌, ok, gets, ◌>>◌,
  leb, Bool-cases, Option-cases, inl, inr, arith,
}
use raft_ebpf.Prelude.Keeps.{Keeps, Keeps-modify, Keeps-then, Keeps-bind, Keeps-gets, keeps_rules}
use raft_ebpf.HashMap.{get}
use raft_ebpf.Common.{leader}
use raft_ebpf.RaftLog.{term_at, current_term}
use raft_ebpf.Node.State.{RaftNode, release}
use raft_ebpf.Node.Apply.{apply_next, apply_while, apply_all, apply_committed_entries}
use raft_ebpf.Node.Commit.{
  majority, replicas, same_term, can_commit, highest, notify_one, notify_each,
  notify_pending_requests, commit_found, try_advance_commit_index,
}

-- the answer of the search over the indices above `base`, up to `base + rounds`
pub record IsHighest (n : RaftNode) (base top : ℕ) (found : Option ℕ) : Type 0 where
  -- what is found passes both tests, and lies in the range
  pub good : (i : ℕ) → found ≡ some i → (base < i) × (i ≤ top) × (can_commit n i ≡ true)
  -- nothing above it does
  pub best : (i j : ℕ) → found ≡ some i → i < j → j ≤ top → can_commit n j ≡ false
  -- where nothing is found, nothing in the range passes
  pub only : (j : ℕ) → found ≡ none → base < j → j ≤ top → can_commit n j ≡ false

top_IsHighest :
    (n : RaftNode) (base rounds : ℕ)
    → can_commit n (base + suc rounds) ≡ true
    → IsHighest n base (base + suc rounds) (some (base + suc rounds))
top_IsHighest n base rounds yes_top = record {
  good = λ i e.
      let k : base + suc rounds ≡ i = some-inj _ i e in
      (omega arith, omega arith, subst (λ (j : ℕ). can_commit n j ≡ true) k yes_top);
  best = λ i j e above low. let k : base + suc rounds ≡ i = some-inj _ i e in absurd (omega arith);
  only = λ j e above low. absurd cc;
}

-- an index that fails the test extends the range
raise :
    (n : RaftNode) (base rounds : ℕ) (found : Option ℕ)
    → can_commit n (base + suc rounds) ≡ false
    → IsHighest n base (base + rounds) found
    → IsHighest n base (base + suc rounds) found
raise n base rounds found no_top below = record {
  good = λ i e. let (a, b, c) = below.good i e in (a, omega arith, c);
  best = λ i j e above low. elim (Bool-cases (leb j (base + rounds))) [
    | inl l ↦ below.best i j e above (ground arith)
    | inr l ↦
        let k : base + suc rounds ≡ j = ground arith in
        subst (λ (x : ℕ). can_commit n x ≡ false) k no_top
  ];
  only = λ j e above low. elim (Bool-cases (leb j (base + rounds))) [
    | inl l ↦ below.only j e above (ground arith)
    | inr l ↦
        let k : base + suc rounds ≡ j = ground arith in
        subst (λ (x : ℕ). can_commit n x ≡ false) k no_top
  ];
}

pub highest-IsHighest :
    (n : RaftNode) (base rounds : ℕ) → IsHighest n base (base + rounds) (highest n base rounds)
unfolding highest
highest-IsHighest n base zero = record {
  good = λ i e. absurd (cc);
  best = λ i j e above low. absurd (cc);
  only = λ j e above low. absurd (omega arith);
}
highest-IsHighest n base (suc rounds) =
    let below = highest-IsHighest n base rounds in
    elim (Bool-cases (can_commit n (base + suc rounds))) [
      | inl yes_top ↦ rw yes_top (top_IsHighest n base rounds yes_top)
      | inr no_top ↦ rw no_top (raise n base rounds _ no_top below)
    ]

-- the commit index of the leader, and what it answers for
pub try_advance_lem :
    (n : RaftNode)
    → n.log_held ≡ false
    → n.role ≡ leader
    → try_advance_commit_index n
      ≡ commit_found
          (highest n n.commit_index (n.log.last_index - n.commit_index))
          (record n { log_held = false })
unfolding try_advance_commit_index highest
try_advance_lem n free lead = rw (lead, free) refl

-- An entry of the leader's own term that a majority of the cluster holds.
abbrev pub IsCommittable : RaftNode → ℕ → Type 0
IsCommittable n i =
    (term_at n.log i ≡ some (current_term n.log)) × (majority n ≤ replicas i n.match_index)

same_term_lem : (o : Option ℕ) (t : ℕ) → (same_term o t ≡ true) ↔ (o ≡ some t)
same_term_lem none t = (λ e. absurd cc, λ e. absurd cc)
same_term_lem (some x) t =
    (λ e. let k : x ≡ t = ground arith in ap some k, λ e. let k = some-inj x t e in ground arith)

can_commit_iff : (n : RaftNode) (i : ℕ) → (can_commit n i ≡ true) ↔ IsCommittable n i
unfolding can_commit
can_commit_iff n i =
    let (to, from) = same_term_lem (term_at n.log i) (current_term n.log) in
    elim (Bool-cases (same_term (term_at n.log i) (current_term n.log))) [
      | inl same ↦ rw same (
        λ e. (to same, leb→le (majority n) (replicas i n.match_index) e),
        λ c. let k = c.1 in ground arith,
      )
      | inr other ↦ rw other (λ e. absurd cc, λ c. let k = from c.0 in absurd cc)
    ]

-- the index that the node has committed
abbrev committed : RaftNode → ℕ
committed n = n.commit_index

committed-release : {A : Type 0} (x : Result A × RaftNode) → committed (release x).1 ≡ committed x.1
committed-release (ok a, n) = refl
committed-release (err e, n) = refl
committed-release (blocked, n) = refl

committed-apply_while :
    (fuel commit : ℕ) (n : RaftNode) → committed (apply_while fuel commit n) ≡ committed n
unfolding apply_while apply_next
committed-apply_while zero commit n = refl
committed-apply_while (suc fuel) commit n =
    ground (arith, committed-apply_while fuel commit (apply_next n))

committed-apply_committed_entries : Keeps committed apply_committed_entries
unfolding apply_committed_entries apply_all
committed-apply_committed_entries = record {
  at = λ n. elim (Bool-cases n.log_held) [
    | inl held ↦ rw held
    | inr free ↦ rw free (
        committed-apply_while (n.commit_index - n.last_applied) n.commit_index
          (record n { log_held = true }))
  ];
}

committed-notify_one : (tx : Option ℕ) (idx : ℕ) → Keeps committed (notify_one tx idx)
committed-notify_one none idx = search keeps_rules
committed-notify_one (some tx) idx = search (keeps_rules, Keeps-modify)

committed-notify_each : (indices : List ℕ) → Keeps committed (notify_each indices)
unfolding notify_each
committed-notify_each [] = search keeps_rules
committed-notify_each (idx ∷ rest) =
    Keeps-bind (gets (λ n. get n.pending_requests idx))
      (λ tx. notify_one tx idx >> notify_each rest) (Keeps-gets _)
      λ tx.
        Keeps-then (notify_one tx idx) (notify_each rest) (committed-notify_one tx idx)
          (committed-notify_each rest)

committed-notify_pending_requests : (i : ℕ) → Keeps committed (notify_pending_requests i)
unfolding notify_pending_requests
committed-notify_pending_requests i = search (keeps_rules, committed-notify_each)

committed-commit_found :
    (o : Option ℕ) (n : RaftNode) → committed (commit_found o n).1 ≡ unwrap_or o n.commit_index
committed-commit_found none n = refl
committed-commit_found (some i) n =
    (Keeps-then apply_committed_entries (notify_pending_requests i)
        committed-apply_committed_entries (committed-notify_pending_requests i)).at
      (record n { commit_index = i })

-- A leader that finds the mutex of its log free never lowers its commit index. It raises it only
-- to an entry of its own term, in its log, that is known on a majority of the cluster, the leader
-- counted; and no entry of the log above the index it ends with is of that kind.
pub try_advance_commit_index-commits :
    (n : RaftNode)
    → n.log_held ≡ false
    → n.role ≡ leader
    → let after = (try_advance_commit_index n).1.commit_index in
      (n.commit_index ≤ after)
      × (n.commit_index < after → (after ≤ n.log.last_index) × IsCommittable n after)
      × ((j : ℕ) → after < j → j ≤ n.log.last_index → ¬ IsCommittable n j)
try_advance_commit_index-commits n free lead =
    let base = n.commit_index in
    let rounds = n.log.last_index - base in
    let found = highest n base rounds in
    let sound = highest-IsHighest n base rounds in
    let e : (try_advance_commit_index n).1.commit_index ≡ unwrap_or found base =
      rw (try_advance_lem n free lead)
        (committed-commit_found found (record n { log_held = false })) in
    rw e (elim (Option-cases found) [
      | inl nothing ↦ rw nothing (
        omega arith,
        λ up. absurd (omega arith),
        λ j above low c.
            let (to, from) = can_commit_iff n j in
            let k = sound.only j nothing above (omega arith) in let k2 = from c in cc,
      )
      | inr (i, some_i) ↦ rw some_i (
          let (a, b, c) = sound.good i some_i in
          (
            omega arith,
            λ up. (omega arith, (can_commit_iff n i).0 c),
            λ j above low cj.
                let k = sound.best i j some_i above (omega arith) in
                let k2 = (can_commit_iff n j).1 cj in cc,
          ))
    ])
