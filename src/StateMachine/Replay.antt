-- ===== src/StateMachine/Replay.antt =====
-- A store that is built from a snapshot and the log, and one that is built from the log alone.
use mathlib.Core.Path.{subst}
use raft_ebpf.Prelude.{
  ℕ, ◌+◌, ◌≤◌, String, text_eq, ◌==◌, ◌≡◌, refl, sym, ap, ◌∙◌, none, some, List, [], ◌∷◌, ◌++◌,
  length, All, leb, true, false, Bool-cases, inl, inr, ok, arith, if◌then◌else◌,
}
use raft_ebpf.HashMap.{get}
use raft_ebpf.HashMap.Laws.{get-insert, get-remove}
use raft_ebpf.Common.{Command, put, delete, noop, LogEntry}
use raft_ebpf.StateMachine.{StateMachine, Bincode, run_command, snapshot, restore, apply, get_value}
use raft_ebpf.StateMachine.Semantics.{apply_entries, apply_entries-effects, apply_entries_again}
use raft_ebpf.StateMachine.Snapshot.{restore-snapshot}
use raft_ebpf.RaftLog.Contiguous.{CountsFrom}

-- two stores that no client and no entry tells apart
abbrev pub Same : StateMachine → StateMachine → Type 0
Same s t = ((key : String) → get_value s key ≡ get_value t key) × (s.last_applied ≡ t.last_applied)

apply-Same : (e : LogEntry) (s t : StateMachine) → Same s t → Same (apply e s).1 (apply e t).1
unfolding apply get_value
apply-Same e s t (same, last) = elim (Bool-cases (leb e.index t.last_applied)) [
  | inl old ↦
      let old' : leb e.index s.last_applied ≡ true = ap (leb e.index) last ∙ old in
      rw (old, old') (same, last)
  | inr new ↦
      let new' : leb e.index s.last_applied ≡ false = ap (leb e.index) last ∙ new in
      rw (new, new') (command_same e.command, refl)
]
  where
    command_same :
        (c : Command) (key : String)
        → get (run_command c s.pairs).1 key ≡ get (run_command c t.pairs).1 key
    command_same (put k v) key =
        get-insert s.pairs k key v
        ∙ ap (λ o. if k == key then some v else o) (same key)
        ∙ sym (get-insert t.pairs k key v)
    command_same (delete k) key =
        get-remove s.pairs k key
        ∙ ap (λ o. if k == key then none else o) (same key)
        ∙ sym (get-remove t.pairs k key)
    command_same noop key = same key

apply_entries-Same :
    (es : List LogEntry) (s t : StateMachine)
    → Same s t
    → Same (apply_entries es s) (apply_entries es t)
unfolding apply_entries
apply_entries-Same [] s t same = same
apply_entries-Same (e ∷ es) s t same =
    apply_entries-Same es (apply e s).1 (apply e t).1 (apply-Same e s t same)

apply_entries-append :
    (es fs : List LogEntry) (s : StateMachine)
    → apply_entries (es ++ fs) s ≡ apply_entries fs (apply_entries es s)
unfolding apply_entries
apply_entries-append [] fs s = refl
apply_entries-append (e ∷ es) fs s = apply_entries-append es fs (apply e s).1

counted :
    (es : List LogEntry) (i last : ℕ)
    → CountsFrom i es
    → i + length es ≤ last + 1
    → All (λ e. e.index ≤ last) es
counted [] i last counts room = tt
counted (e ∷ es) i last counts room =
    (omega (arith, counts.0, room), counted es (i + 1) last counts.1 (omega (arith, room)))

module _ ⦃b : Bincode⦄ where
  -- A snapshot is taken of a store that has applied a first part of the log, and is restored, with
  -- its last applied index, into any store. Then the whole log is applied, from its first entry on:
  -- the first part changes nothing, and the store ends as if the log had been applied once, for
  -- every key and for the last applied index, where bincode can write the store.
  pub restore-replays :
      (es fs : List LogEntry) (first other : StateMachine) (bytes : List ℕ)
      → CountsFrom (first.last_applied + 1) es
      → b.serialize (apply_entries es first).pairs ≡ some bytes
      → let sm = apply_entries es first in
        let (r, restored) = restore (snapshot sm) sm.last_applied other in
        (r ≡ ok tt) × Same (apply_entries (es ++ fs) restored) (apply_entries (es ++ fs) first)
  restore-replays es fs first other bytes counts written =
      let sm = apply_entries es first in
      let last = (apply_entries-effects es first counts).1 in
      let restored = (restore (snapshot sm) sm.last_applied other).1 in
      let (done, same, moved) = restore-snapshot sm other sm.last_applied bytes written in
      let old : All (λ e. e.index ≤ restored.last_applied) es =
        counted es (first.last_applied + 1) restored.last_applied counts
          (omega (arith, last, moved)) in
      let again : apply_entries (es ++ fs) restored ≡ apply_entries fs restored =
        apply_entries-append es fs restored
        ∙ ap (apply_entries fs) (apply_entries_again es restored old) in
      (
        done,
        subst (λ x. Same x (apply_entries (es ++ fs) first)) (sym again)
            (subst (Same (apply_entries fs restored)) (sym (apply_entries-append es fs first))
              (apply_entries-Same fs restored sm (same, moved))),
      )
