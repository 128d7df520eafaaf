-- ===== src/RaftLog/Format.antt =====
-- The format of the log's lines, and the crate `serde_json` as an interface.
use raft_ebpf.Prelude.{
  ℕ, text_eq, String, ◌≡◌, ◌≢◌, true, Option, none, some, List, [], ◌==◌, unwrap_or, is_some,
  if◌then◌else◌,
}
use raft_ebpf.Common.{
  Heapless, string_of, vec_of, Command, put, delete, noop, LogEntry, PersistentState,
}

pub record DiskLogEntry : Type 0 where
  pub index : ℕ
  pub term : ℕ
  pub command_type : String
  pub key : Option String
  pub value : Option (List ℕ)

-- `to_string` and `from_str` at the two types that the log stores. A line never holds a newline.
pub record Json : Type 0 where
  pub to_line : DiskLogEntry → Option String
  pub from_line : String → Option DiskLogEntry
  pub to_state : PersistentState → Option String
  pub from_state : String → Option PersistentState
  pub to_line_total : (d : DiskLogEntry) → is_some (to_line d) ≡ true
  pub from-to_line : (d : DiskLogEntry) {s : String} → to_line d ≡ some s → from_line s ≡ some d
  pub to_line_nonempty : (d : DiskLogEntry) {s : String} → to_line d ≡ some s → s ≢ ""
  pub to_state_total : (p : PersistentState) → is_some (to_state p) ≡ true
  pub from-to_state :
      (p : PersistentState) {s : String} → to_state p ≡ some s → from_state s ≡ some p

-- the tuple that `entry_to_disk` matches out
abbrev command_to_disk : ℕ → ℕ → Command → DiskLogEntry
command_to_disk index term (put k v) = record {
  index = index;
  term = term;
  command_type = "Put";
  key = some k;
  value = some v;
}
command_to_disk index term (delete k) = record {
  index = index;
  term = term;
  command_type = "Delete";
  key = some k;
  value = none;
}
command_to_disk index term noop = record {
  index = index;
  term = term;
  command_type = "Noop";
  key = none;
  value = none;
}

unfoldable pub entry_to_disk : LogEntry → DiskLogEntry
entry_to_disk entry = command_to_disk entry.index entry.term entry.command

module _ ⦃h : Heapless⦄ where
  abbrev disk_command : DiskLogEntry → Command
  disk_command disk =
      if disk.command_type == "Put"
      then put (string_of 256 (unwrap_or disk.key "")) (vec_of 1024 (unwrap_or disk.value []))
      else if disk.command_type == "Delete"
      then delete (string_of 256 (unwrap_or disk.key ""))
      else noop

  unfoldable pub disk_entry_to_log_entry : DiskLogEntry → LogEntry
  disk_entry_to_log_entry disk = record {
    index = disk.index;
    term = disk.term;
    command = disk_command disk;
  }
