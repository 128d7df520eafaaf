-- ===== src/RaftLog/Loading.antt =====
-- `load_from_disk` on the lines that the log writes, when no call of the file system fails.
use raft_ebpf.Prelude.{
  text_eq, number_eq, Bool, false, ◌≡◌, refl, List, [], ◌∷◌, map, ok, All, ◌==◌, eq_iff, arith,
}
use raft_ebpf.Common.{Heapless, LogEntry}
use raft_ebpf.RaftLog.{RaftLog, outcome, store_entry, io, load_line, load_lines}
use raft_ebpf.RaftLog.Format.{Json, entry_to_disk}
use raft_ebpf.RaftLog.RoundTrip.{Fits, line_of, to_line_lem, disk_entry-entry_to_disk}

abbrev pub store_all : List LogEntry → RaftLog → RaftLog
store_all [] log = log
store_all (e ∷ es) log = store_all es (store_entry e log)

outcome_nil : (faults : List Bool) (log : RaftLog) → faults ≡ [] → outcome faults log ≡ (ok tt, log)
outcome_nil [] log h = refl
outcome_nil (x ∷ xs) log h = cc

pub io_ok : (log : RaftLog) → log.disk.faults ≡ [] → io log ≡ (ok tt, log)
unfolding io
io_ok log h = outcome_nil log.disk.faults log h

module _ ⦃h : Heapless⦄ ⦃j : Json⦄ where
  line_of-ne : (e : LogEntry) → (line_of e == "") ≡ false
  line_of-ne e =
      ground (arith, eq_iff (line_of e) "", j.to_line_nonempty (entry_to_disk e) (to_line_lem e))

  load_line_lem :
      (e : LogEntry) (log : RaftLog)
      → Fits e
      → load_line (line_of e) log ≡ (ok tt, store_entry e log)
  unfolding load_line
  load_line_lem e log fits = rw (
    line_of-ne e,
    j.from-to_line (entry_to_disk e) (to_line_lem e),
    disk_entry-entry_to_disk e fits,
  )

  pub load_lines_lem :
      (es : List LogEntry) (log : RaftLog)
      → log.disk.faults ≡ []
      → All Fits es
      → load_lines (map line_of es) log ≡ (ok tt, store_all es log)
  unfolding load_lines
  load_lines_lem [] log healthy fits = refl
  load_lines_lem (e ∷ es) log healthy fits =
      rw (io_ok log healthy, load_line_lem e log fits.0)
        (load_lines_lem es (store_entry e log) healthy fits.1)
