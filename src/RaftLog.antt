-- ===== src/RaftLog.antt =====
-- raft/src/log.rs: the log and the persistent state, in memory and on disk.
pub mod Files
pub mod Format
pub mod RoundTrip
pub mod Loading
pub mod Recovery
pub mod Durable
pub mod Contiguous
pub mod Truncate
pub mod Growth
pub mod Persistent
use raft_ebpf.Prelude.{
  number_eq, text_eq, ℕ, zero, suc, ◌+◌, ◌-◌, max, String, Bool, true, false, Option, none, some,
  List, [], ◌∷◌, ◌++◌, Exec, Result, ok, err, Error, json, pure, gets, or_throw, modify, ◌>>=◌,
  ◌>>◌, ◌==◌, eqb, ltb, leb, next_u64, unwrap_or, map_option, if◌then◌else◌,
}
use raft_ebpf.HashMap.{HashMap, get, insert, retain}
use raft_ebpf.Common.{Heapless, string_of, Command, LogEntry, PersistentState, default_state}
use Files.{Disk, Handle, linked, unlinked}
use Format.{Json, entry_to_disk, disk_entry_to_log_entry}

-- `data_dir` is the disk itself.
pub record RaftLog : Type 0 where
  pub entries : HashMap ℕ LogEntry
  pub persistent_state : PersistentState
  pub last_index : ℕ
  pub log_file : Option Handle
  pub disk : Disk

-- One call of the file system.
abbrev outcome : List Bool → RaftLog → Result (Unit {0}) × RaftLog
outcome [] log = (ok tt, log)
outcome (fails ∷ rest) log =
    (if fails then err Error.io else ok tt, record log { disk = record log.disk { faults = rest } })

unfoldable pub io : Exec RaftLog (Unit {0})
io log = outcome log.disk.faults log

-- RaftLog::current_term, last_index are the fields; `voted_for` copies the text.
abbrev pub current_term : RaftLog → ℕ
current_term log = log.persistent_state.current_term

abbrev pub voted_for : RaftLog → Option String
voted_for log = log.persistent_state.voted_for

unfoldable pub last_term : RaftLog → ℕ
last_term log = unwrap_or (map_option (λ e. e.term) (get log.entries log.last_index)) 0

-- RaftLog::get
abbrev pub entry_at : RaftLog → ℕ → Option LogEntry
entry_at log index = get log.entries index

unfoldable pub term_at : RaftLog → ℕ → Option ℕ
term_at log index = map_option (λ e. e.term) (get log.entries index)

abbrev pub collect_entry : Option LogEntry → List LogEntry → List LogEntry
collect_entry none rest = rest
collect_entry (some e) rest = e ∷ rest

-- `filter_map` over start..start + n
unfoldable pub collect_entries : ℕ → ℕ → HashMap ℕ LogEntry → List LogEntry
collect_entries zero start m = []
collect_entries (suc n) start m = collect_entry (get m start) (collect_entries n (start + 1) m)

unfoldable pub get_entries : ℕ → ℕ → RaftLog → List LogEntry
unfolding collect_entries
get_entries start_index end_index log =
    collect_entries (end_index + 1 - start_index) start_index log.entries

unfoldable pub has_entry : ℕ → ℕ → RaftLog → Bool
has_entry index term log =
    unwrap_or (map_option (λ e. eqb e.term term) (get log.entries index)) (eqb index 0)

abbrev write_state : String → RaftLog → RaftLog
write_state content log = record log { disk = record log.disk { state_json = some content } }

-- A handle writes to its own file, also when the name belongs to another file by now.
abbrev append_line : Handle → String → RaftLog → RaftLog
append_line linked line log = record log {
  disk = record log.disk { log_jsonl = some (unwrap_or log.disk.log_jsonl [] ++ line ∷ []) };
}
append_line unlinked line log = log

abbrev append_tmp : String → RaftLog → RaftLog
append_tmp line log = record log {
  disk = record log.disk { log_tmp = some (unwrap_or log.disk.log_tmp [] ++ line ∷ []) };
}

-- `rename` puts the new file under the name; a handle that was open keeps the old file.
abbrev rename_tmp : RaftLog → RaftLog
rename_tmp log = record log {
  log_file = map_option (λ _. unlinked) log.log_file;
  disk = record log.disk { log_jsonl = some (unwrap_or log.disk.log_tmp []); log_tmp = none };
}

-- `OpenOptions::new().create(true).append(true)`
abbrev open_log : RaftLog → RaftLog
open_log log = record log {
  log_file = some linked;
  disk = record log.disk { log_jsonl = some (unwrap_or log.disk.log_jsonl []) };
}

abbrev store_entry : LogEntry → RaftLog → RaftLog
store_entry entry log = record log {
  entries = insert log.entries entry.index entry;
  last_index = max log.last_index entry.index;
}

module _ ⦃h : Heapless⦄ ⦃j : Json⦄ where
  unfoldable pub save_state : Exec RaftLog (Unit {0})
  unfolding io
  save_state = do
    state ← gets (λ log. log.persistent_state)
    content ← or_throw (j.to_state state) json
    io
    modify (write_state content)

  unfoldable pub set_current_term : ℕ → Exec RaftLog (Unit {0})
  unfolding save_state
  set_current_term term = do
    modify
        (λ log. record log { persistent_state = record { current_term = term; voted_for = none } })
    save_state

  unfoldable pub set_voted_for : Option String → Exec RaftLog (Unit {0})
  unfolding save_state
  set_voted_for candidate_id = do
    modify (λ log. record log {
      persistent_state = record log.persistent_state {
        voted_for = map_option (string_of 64) candidate_id;
      };
    })
    save_state

  -- `if let Some(ref mut file) = self.log_file { … writeln! … }`; `flush` of a file does nothing
  pub write_entry : Option Handle → LogEntry → Exec RaftLog (Unit {0})
  unfolding io
  write_entry none entry = pure tt
  write_entry (some file) entry = do
    line ← or_throw (j.to_line (entry_to_disk entry)) json
    io
    modify (append_line file line)

  unfoldable pub append : ℕ → Command → Exec RaftLog ℕ
  unfolding write_entry
  append term command = do
    index ← gets (λ log. next_u64 log.last_index)
    let entry : LogEntry = record { index = index; term = term; command = command }
    file ← gets (λ log. log.log_file)
    write_entry file entry
    modify (λ log. record log { entries = insert log.entries index entry; last_index = index })
    pure index

  pub append_entry : LogEntry → Exec RaftLog (Unit {0})
  unfolding write_entry
  append_entry entry = do
    file ← gets (λ log. log.log_file)
    write_entry file entry
    modify (store_entry entry)

  unfoldable pub append_entries : List LogEntry → Exec RaftLog (Unit {0})
  unfolding append_entry
  append_entries [] = pure tt
  append_entries (entry ∷ entries) = do append_entry entry; append_entries entries

  pub copy_entry : Option LogEntry → Exec RaftLog (Unit {0})
  unfolding io
  copy_entry none = pure tt
  copy_entry (some entry) = do
    line ← or_throw (j.to_line (entry_to_disk entry)) json
    io
    modify (append_tmp line)

  -- for idx in start..start + n
  pub copy_range : ℕ → ℕ → Exec RaftLog (Unit {0})
  unfolding copy_entry
  copy_range zero start = pure tt
  copy_range (suc n) start = do
    entry ← gets (λ log. entry_at log start)
    copy_entry entry
    copy_range n (start + 1)

  unfoldable pub truncate_from : ℕ → Exec RaftLog (Unit {0})
  unfolding io copy_range
  truncate_from from_index = do
    modify (λ log. record log {
      entries = retain (λ idx. ltb idx from_index) log.entries;
      last_index = from_index - 1;
    })
    io
    modify (λ log. record log { disk = record log.disk { log_tmp = some [] } })
    copy_range (from_index - 1) 1
    io
    modify rename_tmp
    io
    modify open_log

  pub load_state : Option String → Exec RaftLog (Unit {0})
  unfolding io
  load_state none = pure tt
  load_state (some content) = do
    io
    state ← or_throw (j.from_state content) json
    modify (λ log. record log { persistent_state = state })

  pub load_line : String → Exec RaftLog (Unit {0})
  load_line line = if line == "" then pure tt else (do
    disk_entry ← or_throw (j.from_line line) json
    modify (store_entry (disk_entry_to_log_entry disk_entry)))

  pub load_lines : List String → Exec RaftLog (Unit {0})
  unfolding io load_line
  load_lines [] = pure tt
  load_lines (line ∷ lines) = do io; load_line line; load_lines lines

  pub load_log : Option (List String) → Exec RaftLog (Unit {0})
  unfolding io load_lines
  load_log none = pure tt
  load_log (some lines) = do io; load_lines lines

  unfoldable pub load_from_disk : Exec RaftLog (Unit {0})
  unfolding load_state load_log
  load_from_disk = do
    state_json ← gets (λ log. log.disk.state_json)
    load_state state_json
    log_jsonl ← gets (λ log. log.disk.log_jsonl)
    load_log log_jsonl
    io
    modify open_log

  -- RaftLog::new over a data directory
  unfoldable pub new : Disk → Result (Unit {0}) × RaftLog
  unfolding load_from_disk
  new disk =
      let log : RaftLog = record {
        entries = [];
        persistent_state = default_state;
        last_index = 0;
        log_file = none;
        disk = disk;
      } in
      (io >> load_from_disk) log
