-- ===== src/Tests/Log.antt =====
-- Logs at concrete inputs.
use raft_ebpf.Prelude.{refl, [], ◌∷◌, number_eq, text_eq, arith}
use raft_ebpf.Common.{put, delete, noop, LogEntry}
use raft_ebpf.RaftLog.{RaftLog, new, append_entries}
use raft_ebpf.RaftLog.Files.{empty_disk}
use raft_ebpf.RaftLog.Recovery.{IsDurable}
use raft_ebpf.RaftLog.Durable.{append_entries-IsDurable}
use raft_ebpf.RaftLog.Contiguous.{IsContiguous}
use raft_ebpf.RaftLog.Growth.{append_entries-IsContiguous}
use raft_ebpf.Tests.Libraries.{bounded, unary}

-- the log of a first start
abbrev pub start : RaftLog
start = (new empty_disk).1

pub start-IsDurable : IsDurable start
unfolding new
start-IsDurable = record {
  written = [];
  healthy = refl;
  handle = refl;
  file = refl;
  fits = tt;
  content = λ k. refl;
  last = refl;
  state = refl;
}

abbrev pub put_a : LogEntry
put_a = record { index = 1; term = 1; command = put "a" (7 ∷ 8 ∷ []) }

abbrev pub noop_2 : LogEntry
noop_2 = record { index = 2; term = 1; command = noop }

abbrev pub delete_3 : LogEntry
delete_3 = record { index = 3; term = 2; command = delete "a" }

-- an entry that conflicts with `noop_2`
abbrev pub delete_2 : LogEntry
delete_2 = record { index = 2; term = 2; command = delete "a" }

pub start-IsContiguous : IsContiguous start
unfolding new
start-IsContiguous = record {
  no_zero = refl;
  present = λ k lo hi. absurd (omega arith);
  beyond = λ k hi. refl;
}

-- a log of two entries
abbrev pub two : RaftLog
two = (append_entries (put_a ∷ noop_2 ∷ []) start).1

pub two-IsDurable : IsDurable two
two-IsDurable =
    (append_entries-IsDurable (put_a ∷ noop_2 ∷ []) start ((omega arith, omega arith), (tt, tt))
      start-IsDurable).1

pub two-IsContiguous : IsContiguous two
unfolding new
two-IsContiguous =
    (append_entries-IsContiguous 1 (put_a ∷ noop_2 ∷ []) start (refl, (refl, tt)) (omega arith)
      (omega arith) ((omega arith, omega arith), (tt, tt)) start-IsDurable start-IsContiguous).0
