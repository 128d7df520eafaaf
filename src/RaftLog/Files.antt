-- ===== src/RaftLog/Files.antt =====
-- The files of the data directory, as raft/src/log.rs uses them. A file is its text, or its lines.
-- Each call of the file system takes one outcome from `faults`: `true` fails with no effect, and
-- with the list used up all calls succeed.
use raft_ebpf.Prelude.{String, Bool, Option, List, [], none}

pub record Disk : Type 0 where
  -- state.json
  pub state_json : Option String
  -- log.jsonl
  pub log_jsonl : Option (List String)
  -- log.jsonl.tmp
  pub log_tmp : Option (List String)
  pub faults : List Bool

-- An open file: the one under the name log.jsonl, or one that a rename has replaced.
pub data Handle : Type 0 where
  linked unlinked : Handle

abbrev pub empty_disk : Disk
empty_disk = record { state_json = none; log_jsonl = none; log_tmp = none; faults = [] }
