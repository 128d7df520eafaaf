-- ===== src/RaftLog/Durable.antt =====
-- Every operation of the log that ends well leaves on disk what it leaves in memory.
use mathlib.Core.List.{map-append}
use raft_ebpf.Prelude.{
  ℕ, ◌+◌, ◌<◌, max, String, number_eq, ◌==◌, ◌≡◌, refl, sym, ap, ◌∙◌, Option, none, some, List, [],
  ◌∷◌, ◌++◌, ok, All, bind_ok, unwrap_or, map_option, next_u64_lem, u64_mod, if◌then◌else◌, arith,
}
use raft_ebpf.HashMap.{HashMap, get, insert}
use raft_ebpf.HashMap.Laws.{get-insert}
use raft_ebpf.Common.{Heapless, string_of, Command, LogEntry, PersistentState}
use raft_ebpf.RaftLog.{
  RaftLog, store_entry, write_state, append_line, save_state, set_current_term, set_voted_for,
  write_entry, append_entry, append_entries, append,
}
use raft_ebpf.RaftLog.Files.{Handle, linked}
use raft_ebpf.RaftLog.Format.{Json}
use raft_ebpf.RaftLog.RoundTrip.{Fits, FitsCommand, line_of, to_line_lem}
use raft_ebpf.RaftLog.Loading.{io_ok}
use raft_ebpf.RaftLog.Recovery.{IsDurable, replay_entries, top}

replay_entries-append :
    (es : List LogEntry) (e : LogEntry) (m : HashMap ℕ LogEntry)
    → replay_entries (es ++ e ∷ []) m ≡ insert (replay_entries es m) e.index e
replay_entries-append [] e m = refl
replay_entries-append (x ∷ es) e m = replay_entries-append es e (insert m x.index x)

top-append :
    (es : List LogEntry) (e : LogEntry) (n : ℕ) → top (es ++ e ∷ []) n ≡ max (top es n) e.index
top-append [] e n = refl
top-append (x ∷ es) e n = top-append es e (max n x.index)

All-snoc : (es : List LogEntry) (e : LogEntry) → All Fits es → Fits e → All Fits (es ++ e ∷ [])
All-snoc [] e fits f = (f, tt)
All-snoc (x ∷ es) e fits f = (fits.0, All-snoc es e fits.1 f)

module _ ⦃h : Heapless⦄ ⦃j : Json⦄ where
  abbrev pub state_text : PersistentState → String
  state_text p = unwrap_or (j.to_state p) ""

  to_state_lem : (p : PersistentState) → j.to_state p ≡ some (state_text p)
  to_state_lem p = ground (arith, j.to_state_total p)

  pub save_state_lem :
      (log : RaftLog)
      → log.disk.faults ≡ []
      → save_state log ≡ (ok tt, write_state (state_text log.persistent_state) log)
  unfolding save_state
  save_state_lem log healthy = rw (to_state_lem log.persistent_state, io_ok log healthy)

  written_state-IsDurable :
      (log : RaftLog) (p : PersistentState)
      → IsDurable log
      → IsDurable (write_state (state_text p) (record log { persistent_state = p }))
  written_state-IsDurable log p d = record {
    written = d.written;
    healthy = d.healthy;
    handle = d.handle;
    file = d.file;
    fits = d.fits;
    content = d.content;
    last = d.last;
    state = j.from-to_state p (to_state_lem p);
  }

  -- what a successful `set_current_term` leaves behind
  abbrev pub with_term : ℕ → RaftLog → RaftLog
  with_term term log =
      let p : PersistentState = record { current_term = term; voted_for = none } in
      write_state (state_text p) (record log { persistent_state = p })

  pub set_current_term_lem :
      (term : ℕ) (log : RaftLog)
      → log.disk.faults ≡ []
      → set_current_term term log ≡ (ok tt, with_term term log)
  unfolding set_current_term
  set_current_term_lem term log healthy =
      save_state_lem
        (record log { persistent_state = record { current_term = term; voted_for = none } }) healthy

  abbrev pub with_vote : Option String → RaftLog → RaftLog
  with_vote c log =
      let p : PersistentState = record log.persistent_state {
        voted_for = map_option (string_of 64) c;
      } in
      write_state (state_text p) (record log { persistent_state = p })

  pub set_voted_for_lem :
      (c : Option String) (log : RaftLog)
      → log.disk.faults ≡ []
      → set_voted_for c log ≡ (ok tt, with_vote c log)
  unfolding set_voted_for
  set_voted_for_lem c log healthy =
      save_state_lem
        (record log {
          persistent_state = record log.persistent_state {
            voted_for = map_option (string_of 64) c;
          };
        })
        healthy

  -- A new term is on disk when the call returns.
  pub set_current_term-IsDurable :
      (term : ℕ) (log : RaftLog) → IsDurable log → IsDurable (set_current_term term log).1
  set_current_term-IsDurable term log d =
      rw (set_current_term_lem term log d.healthy)
        (written_state-IsDurable log (record { current_term = term; voted_for = none }) d)

  -- A vote is on disk when the call returns.
  pub set_voted_for-IsDurable :
      (c : Option String) (log : RaftLog) → IsDurable log → IsDurable (set_voted_for c log).1
  set_voted_for-IsDurable c log d = rw (set_voted_for_lem c log d.healthy) (
      written_state-IsDurable log
        (record log.persistent_state { voted_for = map_option (string_of 64) c }) d)

  pub write_entry_lem :
      (f : Option Handle) (e : LogEntry) (log : RaftLog)
      → f ≡ some linked
      → log.disk.faults ≡ []
      → write_entry f e log ≡ (ok tt, append_line linked (line_of e) log)
  unfolding write_entry
  write_entry_lem f e log opened healthy = rw (opened, to_line_lem e, io_ok log healthy)

  pub stored_entry-IsDurable :
      (e : LogEntry) (log : RaftLog)
      → Fits e
      → IsDurable log
      → IsDurable (store_entry e (append_line linked (line_of e) log))
  stored_entry-IsDurable e log f d = record {
    written = d.written ++ e ∷ [];
    healthy = d.healthy;
    handle = d.handle;
    file =
        ap (λ (o : Option (List String)). some (unwrap_or o [] ++ line_of e ∷ [])) d.file
        ∙ ap some (sym (map-append line_of d.written (e ∷ [])));
    fits = All-snoc d.written e d.fits f;
    content = λ k.
        get-insert log.entries e.index k e
        ∙ ap (λ (o : Option LogEntry). if e.index == k then some e else o) (d.content k)
        ∙ sym (get-insert (replay_entries d.written []) e.index k e)
        ∙ ap (λ (m : HashMap ℕ LogEntry). get m k) (sym (replay_entries-append d.written e []));
    last = rw d.last (sym (top-append d.written e 0));
    state = d.state;
  }

  pub append_entry_lem :
      (e : LogEntry) (log : RaftLog)
      → IsDurable log
      → append_entry e log ≡ (ok tt, store_entry e (append_line linked (line_of e) log))
  unfolding append_entry
  append_entry_lem e log d =
      bind_ok (write_entry log.log_file e) _ (write_entry_lem log.log_file e log d.handle d.healthy)

  -- A batch from the leader is on disk when the call returns, and the call succeeds.
  pub append_entries-IsDurable :
      (es : List LogEntry) (log : RaftLog)
      → All Fits es
      → IsDurable log
      → ((append_entries es log).0 ≡ ok tt) × IsDurable (append_entries es log).1
  unfolding append_entries
  append_entries-IsDurable [] log fits d = (refl, d)
  append_entries-IsDurable (e ∷ es) log fits d = rw (append_entry_lem e log d) (
      append_entries-IsDurable es (store_entry e (append_line linked (line_of e) log)) fits.1
        (stored_entry-IsDurable e log fits.0 d))

  -- what a successful `append` leaves behind
  abbrev pub appended : ℕ → Command → RaftLog → RaftLog
  appended term c log =
      let e : LogEntry = record { index = log.last_index + 1; term = term; command = c } in
      record (append_line linked (line_of e) log) {
        entries = insert log.entries (log.last_index + 1) e;
        last_index = log.last_index + 1;
      }

  pub append_lem :
      (term : ℕ) (c : Command) (log : RaftLog)
      → log.last_index + 1 < u64_mod
      → IsDurable log
      → append term c log ≡ (ok (log.last_index + 1), appended term c log)
  unfolding append
  append_lem term c log room d =
      let e : LogEntry = record { index = log.last_index + 1; term = term; command = c } in
      rw (next_u64_lem log.last_index room, write_entry_lem log.log_file e log d.handle d.healthy)

  -- A proposal that finds room below 2^64 succeeds, takes the next index, and is on disk when the
  -- call returns.
  pub append-IsDurable :
      (term : ℕ) (c : Command) (log : RaftLog)
      → log.last_index + 1 < u64_mod
      → FitsCommand c
      → IsDurable log
      → ((append term c log).0 ≡ ok (log.last_index + 1)) × IsDurable (append term c log).1
  append-IsDurable term c log room f d =
      let e : LogEntry = record { index = log.last_index + 1; term = term; command = c } in
      let m : max log.last_index (log.last_index + 1) ≡ log.last_index + 1 = omega arith in
      rw (append_lem term c log room d) (refl, (rw m at (stored_entry-IsDurable e log f d)))
