-- ===== src/StateMachine/Semantics.antt =====
-- The store against its abstract meaning: a map from keys to values that each command updates.
use mathlib.Core.Path.{subst}
use raft_ebpf.Prelude.{
  ℕ, ◌+◌, ◌≤◌, String, text_eq, ◌==◌, ◌≡◌, refl, sym, ap, ◌∙◌, Option, none, some, List, [], ◌∷◌,
  length, All, leb, true, false, arith, if◌then◌else◌,
}
use raft_ebpf.HashMap.Laws.{get-insert, get-remove}
use raft_ebpf.Common.{Command, put, delete, noop, LogEntry}
use raft_ebpf.StateMachine.{StateMachine, apply, get_value}
use raft_ebpf.RaftLog.Contiguous.{CountsFrom}

-- the store that a client sees
abbrev pub View : Type 0
View = String → Option (List ℕ)

abbrev pub effect : Command → View → View
effect (put key v) view k = if key == k then some v else view k
effect (delete key) view k = if key == k then none else view k
effect noop view k = view k

abbrev pub effects : List LogEntry → View → View
effects [] view = view
effects (e ∷ es) view = effects es (effect e.command view)

-- `state_machine.apply(entry)` over a list
unfoldable pub apply_entries : List LogEntry → StateMachine → StateMachine
apply_entries [] sm = sm
apply_entries (e ∷ es) sm = apply_entries es (apply e sm).1

command_effect :
    (c : Command) (i t : ℕ) (sm : StateMachine)
    → leb i sm.last_applied ≡ false
    → (k : String)
    → get_value (apply (record { index = i; term = t; command = c }) sm).1 k
      ≡ effect c (get_value sm) k
unfolding apply get_value
command_effect (put key v) i t sm new k = rw new (get-insert sm.pairs key k v)
command_effect (delete key) i t sm new k = rw new (get-remove sm.pairs key k)
command_effect noop i t sm new k = rw new

effects_ext :
    (es : List LogEntry) (v w : View)
    → ((k : String) → v k ≡ w k)
    → (k : String) → effects es v k ≡ effects es w k
effects_ext es v w same k = ap (λ (x : View). effects es x k) (λ i key. same key i)

last_applied-apply :
    (e : LogEntry) (sm : StateMachine)
    → leb e.index sm.last_applied ≡ false
    → (apply e sm).1.last_applied ≡ e.index
unfolding apply
last_applied-apply e sm new = rw new

-- Entries whose indices count up from the one after the last applied have exactly the effects of
-- their commands, in order, and the last of them becomes the last applied.
pub apply_entries-effects :
    (es : List LogEntry) (sm : StateMachine)
    → CountsFrom (sm.last_applied + 1) es
    → ((k : String) → get_value (apply_entries es sm) k ≡ effects es (get_value sm) k)
      × ((apply_entries es sm).last_applied ≡ sm.last_applied + length es)
unfolding apply_entries
apply_entries-effects [] sm counts = (λ k. refl, omega arith)
apply_entries-effects (e ∷ es) sm counts =
    let new : leb e.index sm.last_applied ≡ false = ground arith in
    let moved = last_applied-apply e sm new in
    let (seen, last) =
      apply_entries-effects es (apply e sm).1
        (subst (λ (i : ℕ). CountsFrom (i + 1) es) (sym (moved ∙ counts.0)) counts.1) in
    (
      λ k. seen k ∙ effects_ext es _ _ (command_effect e.command e.index e.term sm new) k,
      omega (arith, last, moved),
    )

-- Applying entries that the store has applied already changes nothing.
pub apply_entries_again :
    (es : List LogEntry) (sm : StateMachine)
    → All (λ e. e.index ≤ sm.last_applied) es
    → apply_entries es sm ≡ sm
unfolding apply_entries apply
apply_entries_again [] sm old = refl
apply_entries_again (e ∷ es) sm old =
    let seen : leb e.index sm.last_applied ≡ true = ground arith in
    rw seen (apply_entries_again es sm old.1)
