-- ===== src/Node/Deadlock.antt =====
-- The locks of two methods that are taken in two orders.
use raft_ebpf.Prelude.{
  ℕ, Bool, true, false, List, [], ◌∷◌, ◌&&◌, ◌||◌, eqb, eqb_iff, Bool-cases, inl, inr, ◌≡◌, ◌≢◌,
  refl, sym, ◌∙◌, arith,
}
use mathlib.Core.Path.{subst}
use raft_ebpf.Node.Locks.{
  Lock, log, last_applied, leader_id, peers, state_machine, commit_index, role, same_lock, Action,
  exclusive, shared, unlock, Guard, Tasks, none_on, none_writes, granted, drop_guard, after, set,
  act, run, both,
}

-- the task writes under the lock
abbrev has : ℕ → Lock → List Guard → Bool
has i l [] = false
has i l (g ∷ gs) = eqb g.task i && (same_lock g.on l && g.writes) || has i l gs

none_on-has : (i : ℕ) (l : Lock) (gs : List Guard) → has i l gs ≡ true → none_on l gs ≡ false
none_on-has i l [] h = absurd (ground (arith, h))
none_on-has i l (g ∷ gs) h = let rest = none_on-has i l gs in ground (arith, rest, h)

none_writes-has :
    (i : ℕ) (l : Lock) (gs : List Guard) → has i l gs ≡ true → none_writes l gs ≡ false
none_writes-has i l [] h = absurd (ground (arith, h))
none_writes-has i l (g ∷ gs) h = let rest = none_writes-has i l gs in ground (arith, rest, h)

-- a guard of another task is not the one that is dropped
not_mine : (i j k : ℕ) (b c : Bool) → i ≢ j → (eqb k j && b) ≡ true → (eqb k i && c) ≡ false
not_mine i j k b c other h = ground (arith, other, h)

or_right : (a b : Bool) → a ≡ false → (a || b) ≡ true → b ≡ true
or_right a b left h = ground (arith, left, h)

or_mono : (a b c : Bool) → ((b ≡ true) → c ≡ true) → (a || b) ≡ true → (a || c) ≡ true
or_mono true b c f h = refl
or_mono false b c f h = f h

has-drop_guard :
    (i j : ℕ) (l k : Lock) (gs : List Guard)
    → i ≢ j
    → has i l gs ≡ true
    → has i l (drop_guard j k gs) ≡ true
has-drop_guard i j l k [] other h = h
has-drop_guard i j l k (g ∷ gs) other h =
    let mine = eqb g.task i && (same_lock g.on l && g.writes) in
    elim (Bool-cases (eqb g.task j && same_lock g.on k)) [
      | inl hit ↦ rw hit (
          or_right mine (has i l gs)
            (not_mine i j g.task (same_lock g.on k) (same_lock g.on l && g.writes) other hit) h)
      | inr miss ↦ rw miss (
          or_mono mine (has i l gs) (has i l (drop_guard j k gs)) (has-drop_guard i j l k gs other)
            h)
    ]

has-after :
    (i j : ℕ) (l : Lock) (a : Action) (gs : List Guard)
    → i ≢ j
    → has i l gs ≡ true
    → has i l (after j a gs) ≡ true
has-after i j l (exclusive k) gs other h = ground (arith, h)
has-after i j l (shared k) gs other h = ground (arith, h)
has-after i j l (unlock k) gs other h = has-drop_guard i j l k gs other h

set_other :
    (rest : ℕ → List Action) (m i : ℕ) (actions : List Action)
    → i ≢ m
    → set rest m actions i ≡ rest i
set_other rest m i actions other =
    let apart : eqb i m ≡ false = ground (arith, other) in rw apart refl

module _ (i j : ℕ) (l k : Lock) (xs ys : List Action) where
  -- Task `i` has `l` and waits to read `k`, and task `j` has `k` and waits for `l`.
  record Waits (s : Tasks) : Type 0 where
    first : has i l s.guards ≡ true
    second : has j k s.guards ≡ true
    first_waits : s.rest i ≡ shared k ∷ xs
    second_waits : s.rest j ≡ exclusive l ∷ ys

  act_first : (s : Tasks) → Waits s → act i (s.rest i) s ≡ s
  act_first s w = let held = none_writes-has j k s.guards w.second in rw (w.first_waits, held) refl

  act_second : (s : Tasks) → Waits s → act j (s.rest j) s ≡ s
  act_second s w = let held = none_on-has i l s.guards w.first in rw (w.second_waits, held) refl

  act_other :
      (m : ℕ) (actions : List Action) (s : Tasks)
      → i ≢ m
      → j ≢ m
      → Waits s
      → Waits (act m actions s)
  act_other m [] s p q w = w
  act_other m (a ∷ actions) s p q w = elim (Bool-cases (granted a s.guards)) [
    | inl given ↦ rw given (record {
      first = has-after i m l a s.guards p w.first;
      second = has-after j m k a s.guards q w.second;
      first_waits = set_other s.rest m i actions p ∙ w.first_waits;
      second_waits = set_other s.rest m j actions q ∙ w.second_waits;
    })
    | inr refused ↦ rw refused w
  ]

  act-Waits : (m : ℕ) (s : Tasks) → Waits s → Waits (act m (s.rest m) s)
  act-Waits m s w = elim (Bool-cases (eqb i m)) [
    | inl is ↦
        subst (λ m. Waits (act m (s.rest m) s)) ((eqb_iff i m).0 is)
          (subst Waits (sym (act_first s w)) w)
    | inr p ↦ elim (Bool-cases (eqb j m)) [
      | inl is ↦
          subst (λ m. Waits (act m (s.rest m) s)) ((eqb_iff j m).0 is)
            (subst Waits (sym (act_second s w)) w)
      | inr q ↦ act_other m (s.rest m) s (ground (arith, p)) (ground (arith, q)) w
    ]
  ]

  run-Waits : (schedule : List ℕ) (s : Tasks) → Waits s → Waits (run schedule s)
  unfolding run
  run-Waits [] s w = w
  run-Waits (m ∷ schedule) s w = run-Waits schedule (act m (s.rest m) s) (act-Waits m s w)

-- the second task up to its wait for the log, and the first up to its wait for the index
abbrev pub meeting : List ℕ
meeting = 1 ∷ 1 ∷ 1 ∷ 0 ∷ 0 ∷ 0 ∷ 0 ∷ []

-- the two one after the other, each as long as it has something to do
abbrev pub in_turn : List ℕ
in_turn = 0 ∷ 0 ∷ 0 ∷ 0 ∷ 0 ∷ 0 ∷ 0 ∷ 0 ∷ 0 ∷ 0 ∷ 0 ∷ 0 ∷ 1 ∷ 1 ∷ 1 ∷ 1 ∷ 1 ∷ 1 ∷ 1 ∷ 1 ∷ []

-- what the two have still to do where they wait, and what comes behind that
abbrev status_after : List Action
status_after =
    shared leader_id
    ∷ unlock peers
    ∷ unlock log
    ∷ unlock leader_id
    ∷ unlock last_applied
    ∷ unlock commit_index
    ∷ unlock role
    ∷ []

abbrev apply_after : List Action
apply_after = exclusive state_machine ∷ unlock state_machine ∷ unlock log ∷ unlock last_applied ∷ []

abbrev pub status_left : List Action
status_left = shared last_applied ∷ status_after

abbrev pub apply_left : List Action
apply_left = exclusive log ∷ apply_after

-- A call of `get_status` and the application of committed entries come to their ends one after the
-- other, with no guard left, but at once they can wait for each other: where the one has come to read
-- the index of the last applied entry and the other to lock the log, no order of further steps, of
-- these and of any other tasks, brings either of them further.
pub get_status-deadlocks :
    (others : ℕ → List Action) (schedule : List ℕ)
    → let t = run in_turn (both others) in
      let s = run schedule (run meeting (both others)) in
      (t.guards ≡ [])
      × (t.rest 0 ≡ [])
      × (t.rest 1 ≡ [])
      × (s.rest 0 ≡ status_left)
      × (s.rest 1 ≡ apply_left)
unfolding run
get_status-deadlocks others schedule =
    let w =
      run-Waits 0 1 log last_applied status_after apply_after schedule (run meeting (both others))
        (record { first = refl; second = refl; first_waits = refl; second_waits = refl }) in
    (refl, refl, refl, w.first_waits, w.second_waits)
