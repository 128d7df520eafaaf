-- ===== src/Daemon/Sound.antt =====
-- What holds of a node at all times: its log is on disk and without gaps, the commit index and the
-- applied index lie in it, and the store is what the applied entries make of an empty one.
use raft_ebpf.Prelude.{
  ℕ, zero, suc, ◌+◌, ◌-◌, ◌≤◌, ◌<◌, String, number_eq, ◌≡◌, refl, sym, ap, ◌∙◌, Option, none, some,
  List, [], ◌∷◌, ◌++◌, arith,
}
use raft_ebpf.HashMap.{HashMap, get}
use raft_ebpf.Common.{Heapless, LogEntry}
use raft_ebpf.StateMachine.{StateMachine, get_value}
use raft_ebpf.StateMachine.Semantics.{View, effects, apply_entries, apply_entries-effects}
use raft_ebpf.RaftLog.{RaftLog, entry_at, collect_entry, collect_entries, get_entries}
use raft_ebpf.RaftLog.Format.{Json}
use raft_ebpf.RaftLog.Recovery.{IsDurable}
use raft_ebpf.RaftLog.Contiguous.{IsContiguous, get_entries_lem}
use raft_ebpf.RaftLog.Durable.{
  with_term, with_vote, set_current_term_lem, set_voted_for_lem, set_current_term-IsDurable,
  set_voted_for-IsDurable,
}
use raft_ebpf.Node.State.{RaftNode}

-- a store without keys
abbrev pub empty_view : View
empty_view key = none

module _ ⦃h : Heapless⦄ ⦃j : Json⦄ where
  pub record SoundAt (log : RaftLog) (commit applied : ℕ) (sm : StateMachine) : Type 0 where
    pub durable : IsDurable log
    pub contiguous : IsContiguous log
    pub known : commit ≤ log.last_index
    pub behind : applied ≤ commit
    pub in_step : sm.last_applied ≡ applied
    pub store :
        (key : String) → get_value sm key ≡ effects (get_entries 1 applied log) empty_view key

  abbrev pub Sound : RaftNode → Type 0
  Sound n = SoundAt n.log n.commit_index n.last_applied n.state_machine

  collect_same :
      (n start : ℕ) (m m' : HashMap ℕ LogEntry)
      → ((k : ℕ) → start ≤ k → k < start + n → get m' k ≡ get m k)
      → collect_entries n start m' ≡ collect_entries n start m
  unfolding collect_entries
  collect_same zero start m m' same = refl
  collect_same (suc n) start m m' same =
      rw
        (
          same start (omega arith) (omega arith),
          collect_same n (start + 1) m m' (λ k lo hi. same k (omega arith) (omega arith)),
        )
        refl

  -- another log that has the applied entries
  pub Sound-log :
      (log log' : RaftLog) (commit commit' applied : ℕ) (sm : StateMachine)
      → SoundAt log commit applied sm
      → IsDurable log'
      → IsContiguous log'
      → commit' ≤ log'.last_index
      → applied ≤ commit'
      → ((k : ℕ) → k ≤ applied → entry_at log' k ≡ entry_at log k)
      → SoundAt log' commit' applied sm
  unfolding get_entries
  Sound-log log log' commit commit' applied sm s d c known behind same = record {
    durable = d;
    contiguous = c;
    known = known;
    behind = behind;
    in_step = s.in_step;
    store = λ key.
        s.store key
        ∙ ap (λ (es : List LogEntry). effects es empty_view key)
            (sym (
              collect_same (applied + 1 - 1) 1 log.entries log'.entries
                (λ k lo hi. same k (omega arith))));
  }

  same_entries-IsContiguous :
      (log log' : RaftLog)
      → log'.entries ≡ log.entries
      → log'.last_index ≡ log.last_index
      → IsContiguous log
      → IsContiguous log'
  same_entries-IsContiguous log log' entries last c = record {
    no_zero = rw entries c.no_zero;
    present = λ k lo hi. rw entries (c.present k lo (omega arith));
    beyond = λ k hi. rw entries (c.beyond k (omega arith));
  }

  pub Sound-with_term :
      (term : ℕ) (log : RaftLog) (commit applied : ℕ) (sm : StateMachine)
      → SoundAt log commit applied sm
      → SoundAt (with_term term log) commit applied sm
  Sound-with_term term log commit applied sm s =
      Sound-log log (with_term term log) commit commit applied sm s
        (rw (set_current_term_lem term log s.durable.healthy) at
          (set_current_term-IsDurable term log s.durable))
        (same_entries-IsContiguous log (with_term term log) refl refl s.contiguous) s.known s.behind
        (λ k hi. refl)

  pub Sound-with_vote :
      (c : Option String) (log : RaftLog) (commit applied : ℕ) (sm : StateMachine)
      → SoundAt log commit applied sm
      → SoundAt (with_vote c log) commit applied sm
  Sound-with_vote c log commit applied sm s =
      Sound-log log (with_vote c log) commit commit applied sm s
        (rw (set_voted_for_lem c log s.durable.healthy) at
          (set_voted_for-IsDurable c log s.durable))
        (same_entries-IsContiguous log (with_vote c log) refl refl s.contiguous) s.known s.behind
        (λ k hi. refl)

  effects-append :
      (xs ys : List LogEntry) (v : View) (key : String)
      → effects (xs ++ ys) v key ≡ effects ys (effects xs v) key
  effects-append [] ys v key = refl
  effects-append (x ∷ xs) ys v key = effects-append xs ys _ key

  effects_same :
      (es : List LogEntry) (v w : View)
      → ((k : String) → v k ≡ w k)
      → (k : String) → effects es v k ≡ effects es w k
  effects_same es v w same k = ap (λ (x : View). effects es x k) (λ i key. same key i)

  collect_entry-append :
      (o : Option LogEntry) (xs ys : List LogEntry)
      → collect_entry o (xs ++ ys) ≡ collect_entry o xs ++ ys
  collect_entry-append none xs ys = refl
  collect_entry-append (some e) xs ys = refl

  collect_split :
      (a b start : ℕ) (m : HashMap ℕ LogEntry)
      → collect_entries (a + b) start m
        ≡ collect_entries a start m ++ collect_entries b (start + a) m
  unfolding collect_entries
  collect_split zero b start m =
      let count : 0 + b ≡ b = omega arith in
      let next : start ≡ start + 0 = omega arith in
      ap (λ (k : ℕ). collect_entries k start m) count ∙ ap (λ (s : ℕ). collect_entries b s m) next
  collect_split (suc a) b start m =
      let count : suc a + b ≡ suc (a + b) = omega arith in
      let next : start + 1 + a ≡ start + suc a = omega arith in
      ap (λ (k : ℕ). collect_entries k start m) count
      ∙ ap (collect_entry (get m start)) (collect_split a b (start + 1) m)
      ∙ collect_entry-append (get m start) (collect_entries a (start + 1) m)
          (collect_entries b (start + 1 + a) m)
      ∙ ap
          (λ (s : ℕ).
            collect_entry (get m start) (collect_entries a (start + 1) m) ++ collect_entries b s m)
          next

  entries_split :
      (a b : ℕ) (log : RaftLog)
      → a ≤ b
      → get_entries 1 b log ≡ get_entries 1 a log ++ get_entries (a + 1) b log
  unfolding get_entries
  entries_split a b log le =
      let whole : b + 1 - 1 ≡ (a + 1 - 1) + (b + 1 - (a + 1)) = omega arith in
      let next : 1 + (a + 1 - 1) ≡ a + 1 = omega arith in
      ap (λ (k : ℕ). collect_entries k 1 log.entries) whole
      ∙ collect_split (a + 1 - 1) (b + 1 - (a + 1)) 1 log.entries
      ∙ ap
          (λ (s : ℕ).
            collect_entries (a + 1 - 1) 1 log.entries
            ++ collect_entries (b + 1 - (a + 1)) s log.entries)
          next

  -- the store that has applied up to the commit index
  pub Sound-apply :
      (log : RaftLog) (commit applied : ℕ) (sm : StateMachine)
      → SoundAt log commit applied sm
      → SoundAt log commit commit (apply_entries (get_entries (applied + 1) commit log) sm)
  Sound-apply log commit applied sm s =
      let es = get_entries (applied + 1) commit log in
      let (counted, ordered) =
        get_entries_lem (applied + 1) commit log s.contiguous (omega arith)
          (omega (arith, s.behind)) s.known in
      let (seen, last) = apply_entries-effects es sm (rw s.in_step ordered) in
      record {
        durable = s.durable;
        contiguous = s.contiguous;
        known = s.known;
        behind = omega arith;
        in_step = omega (arith, last, counted, s.in_step, s.behind);
        store = λ key.
            seen key
            ∙ effects_same es _ _ s.store key
            ∙ sym (
                ap (λ (l : List LogEntry). effects l empty_view key)
                  (entries_split applied commit log s.behind)
                ∙ effects-append (get_entries 1 applied log) es empty_view key);
      }
