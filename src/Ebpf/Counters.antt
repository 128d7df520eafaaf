-- ===== src/Ebpf/Counters.antt =====
-- The counters of the classifier: `increment_stat` at the three keys that it uses never finds the
-- map full, and it moves one counter.
use raft_ebpf.Prelude.{
  ℕ, zero, suc, ◌+◌, ◌<◌, ◌%◌, Option, none, some, Option-cases, inl, inr, Bool-cases, eqb, eqb_iff,
  unwrap_or, next_u64, u64_mod, if◌then◌else◌, ◌≡◌, ap, ◌∙◌, arith,
}
use raft_ebpf.Ebpf.Kernel.{BpfMap}
use raft_ebpf.Ebpf.Classify.{increment_stat}

abbrev pub present : Option ℕ → ℕ
present none = 0
present (some n) = 1

present_bound : (o : Option ℕ) → present o < 2
present_bound none = omega arith
present_bound (some n) = omega arith

module _ (counters : BpfMap 8 ℕ) where
  abbrev pub stat : counters.Map → ℕ → ℕ
  stat stats key = unwrap_or (counters.get stats key) 0

  -- no other keys are in the map
  abbrev pub IsTidy : counters.Map → Type 0
  IsTidy stats =
      counters.size stats
      ≡ present (counters.get stats 0)
        + present (counters.get stats 1)
        + present (counters.get stats 2)

  tidy_room : (stats : counters.Map) → IsTidy stats → counters.size stats < 8
  tidy_room stats tidy = omega (
    arith,
    tidy,
    present_bound (counters.get stats 0),
    present_bound (counters.get stats 1),
    present_bound (counters.get stats 2),
  )

  pub get-increment_stat :
      (stats : counters.Map) (key j : ℕ)
      → IsTidy stats
      → counters.get (increment_stat counters stats key) j
        ≡ (if eqb key j then some (next_u64 (stat stats key)) else counters.get stats j)
  get-increment_stat stats key j tidy = elim (Option-cases (counters.get stats key)) [
    | inr (n, there) ↦ rw there (counters.get-set stats key j (next_u64 n) n there)
    | inl missing ↦
        let (stats', done) = counters.insert_room stats key 1 (tidy_room stats tidy) in
        rw (missing, done) (counters.get-insert stats stats' key j 1 done)
  ]

  size-increment_stat :
      (stats : counters.Map) (key : ℕ)
      → IsTidy stats
      → counters.size (increment_stat counters stats key) + present (counters.get stats key)
        ≡ counters.size stats + 1
  size-increment_stat stats key tidy = elim (Option-cases (counters.get stats key)) [
    | inr (n, there) ↦ rw there (omega (arith, counters.size-set stats key (next_u64 n) n there))
    | inl missing ↦
        let (stats', done) = counters.insert_room stats key 1 (tidy_room stats tidy) in
        rw (missing, done) (omega (arith, counters.size-insert stats stats' key 1 missing done))
  ]

  pub increment_stat-IsTidy :
      (stats : counters.Map) (key : ℕ)
      → key < 3
      → IsTidy stats
      → IsTidy (increment_stat counters stats key)
  increment_stat-IsTidy stats zero small tidy =
      rw
        (
          get-increment_stat stats 0 0 tidy,
          get-increment_stat stats 0 1 tidy,
          get-increment_stat stats 0 2 tidy,
        )
        (omega (arith, tidy, size-increment_stat stats 0 tidy))
  increment_stat-IsTidy stats (suc zero) small tidy =
      rw
        (
          get-increment_stat stats 1 0 tidy,
          get-increment_stat stats 1 1 tidy,
          get-increment_stat stats 1 2 tidy,
        )
        (omega (arith, tidy, size-increment_stat stats 1 tidy))
  increment_stat-IsTidy stats (suc (suc zero)) small tidy =
      rw
        (
          get-increment_stat stats 2 0 tidy,
          get-increment_stat stats 2 1 tidy,
          get-increment_stat stats 2 2 tidy,
        )
        (omega (arith, tidy, size-increment_stat stats 2 tidy))
  increment_stat-IsTidy stats (suc (suc (suc key))) small tidy = absurd omega arith

  -- the counters after one more packet, on a u64 that wraps
  pub stat-increment_stat :
      (stats : counters.Map) (key j n : ℕ)
      → IsTidy stats
      → stat stats j ≡ n % u64_mod
      → stat (increment_stat counters stats key) j ≡ (if eqb key j then n + 1 else n) % u64_mod
  stat-increment_stat stats key j n tidy counted =
      ap (λ o. unwrap_or o 0) (get-increment_stat stats key j tidy)
      ∙ elim (Bool-cases (eqb key j)) [
        | inl same ↦ rw (same, (eqb_iff key j).0 same, counted) (omega arith)
        | inr other ↦ rw other counted
      ]

  -- the three counters stand at these numbers
  abbrev pub Counted : counters.Map → ℕ → ℕ → ℕ → Type 0
  Counted stats packets ours errors =
      IsTidy stats
      × (stat stats 0 ≡ packets % u64_mod)
      × (stat stats 1 ≡ ours % u64_mod)
      × (stat stats 2 ≡ errors % u64_mod)

  pub Counted-increment_stat :
      (stats : counters.Map) (key a b c : ℕ)
      → key < 3
      → Counted stats a b c
      → Counted
          (increment_stat counters stats key)
          (if eqb key 0 then a + 1 else a)
          (if eqb key 1 then b + 1 else b)
          (if eqb key 2 then c + 1 else c)
  Counted-increment_stat stats key a b c small (tidy, packets, ours, errors) = (
    increment_stat-IsTidy stats key small tidy,
    stat-increment_stat stats key 0 a tidy packets,
    stat-increment_stat stats key 1 b tidy ours,
    stat-increment_stat stats key 2 c tidy errors,
  )
