-- ===== src/RaftLog/Persistent.antt =====
-- What each operation of the log does to the term and the vote in memory, whether or not a call of
-- the file system fails.
use raft_ebpf.Prelude.{
  ℕ, zero, suc, ◌+◌, String, Bool, ◌≡◌, refl, Option, none, some, List, [], ◌∷◌, gets, modify, ◌>>◌,
  map_option,
}
use raft_ebpf.Prelude.Keeps.{Keeps, Keeps-modify, Keeps-then, Keeps-bind, Keeps-gets, keeps_rules}
use raft_ebpf.Common.{Heapless, string_of, Command, LogEntry, PersistentState}
use raft_ebpf.RaftLog.{
  RaftLog, entry_at, outcome, io, save_state, set_current_term, set_voted_for, write_entry, append,
  append_entry, append_entries, append_line, copy_entry, copy_range, truncate_from,
}
use raft_ebpf.RaftLog.Files.{Handle, linked, unlinked}
use raft_ebpf.RaftLog.Format.{Json}

abbrev pub persistent : RaftLog → PersistentState
persistent log = log.persistent_state

persistent-outcome :
    (faults : List Bool) (log : RaftLog) → persistent (outcome faults log).1 ≡ persistent log
persistent-outcome [] log = refl
persistent-outcome (f ∷ rest) log = refl

io-Keeps : Keeps persistent io
unfolding io
io-Keeps = record { at = λ log. persistent-outcome log.disk.faults log }

append_line-Keeps : (f : Handle) (line : String) → Keeps persistent (modify (append_line f line))
append_line-Keeps linked line = record { at = λ s. refl }
append_line-Keeps unlinked line = record { at = λ s. refl }

ruleset log_rules = (keeps_rules, io-Keeps, append_line-Keeps, Keeps-modify, refl)

module _ ⦃h : Heapless⦄ ⦃j : Json⦄ where
  save_state-Keeps : Keeps persistent save_state
  unfolding save_state
  save_state-Keeps = search log_rules

  pub persistent-set_current_term :
      (term : ℕ) (log : RaftLog)
      → persistent (set_current_term term log).1 ≡ record { current_term = term; voted_for = none }
  unfolding set_current_term
  persistent-set_current_term term log = save_state-Keeps.at _

  pub persistent-set_voted_for :
      (c : Option String) (log : RaftLog)
      → persistent (set_voted_for c log).1
        ≡ record log.persistent_state { voted_for = map_option (string_of 64) c }
  unfolding set_voted_for
  persistent-set_voted_for c log = save_state-Keeps.at _

  write_entry-Keeps : (f : Option Handle) (e : LogEntry) → Keeps persistent (write_entry f e)
  unfolding write_entry
  write_entry-Keeps none e = search log_rules
  write_entry-Keeps (some f) e = search log_rules

  append_entry-Keeps : (e : LogEntry) → Keeps persistent (append_entry e)
  unfolding append_entry
  append_entry-Keeps e = search (log_rules, write_entry-Keeps)

  pub append_entries-Keeps : (es : List LogEntry) → Keeps persistent (append_entries es)
  unfolding append_entries
  append_entries-Keeps [] = search log_rules
  append_entries-Keeps (e ∷ es) =
      Keeps-then (append_entry e) (append_entries es) (append_entry-Keeps e)
        (append_entries-Keeps es)

  pub append-Keeps : (term : ℕ) (c : Command) → Keeps persistent (append term c)
  unfolding append
  append-Keeps term c = search (log_rules, write_entry-Keeps) depth 8

  copy_entry-Keeps : (o : Option LogEntry) → Keeps persistent (copy_entry o)
  unfolding copy_entry
  copy_entry-Keeps none = search log_rules
  copy_entry-Keeps (some e) = search log_rules

  copy_range-Keeps : (n start : ℕ) → Keeps persistent (copy_range n start)
  unfolding copy_range
  copy_range-Keeps zero start = search log_rules
  copy_range-Keeps (suc n) start =
      Keeps-bind (gets (λ log. entry_at log start))
        (λ entry. copy_entry entry >> copy_range n (start + 1)) (Keeps-gets _)
        λ entry.
          Keeps-then (copy_entry entry) (copy_range n (start + 1)) (copy_entry-Keeps entry)
            (copy_range-Keeps n (start + 1))

  pub truncate_from-Keeps : (from : ℕ) → Keeps persistent (truncate_from from)
  unfolding truncate_from
  truncate_from-Keeps from = search (log_rules, copy_range-Keeps) depth 12
