-- ===== src/RaftLog/RoundTrip.antt =====
-- An entry that is written to disk (`entry_to_disk`) and read again (`disk_entry_to_log_entry`).
use raft_ebpf.Prelude.{ℕ, ◌≤◌, String, len, ◌≡◌, refl, some, length, unwrap_or, arith}
use raft_ebpf.Common.{Heapless, string_of_fits, vec_of_fits, Command, put, delete, noop, LogEntry}
use raft_ebpf.RaftLog.Format.{Json, entry_to_disk, disk_entry_to_log_entry}

-- What a `heapless::String<256>` and a `heapless::Vec<u8, 1024>` can hold.
abbrev pub FitsCommand : Command → Type 0
FitsCommand (put k v) = (len k ≤ 256) × (length v ≤ 1024)
FitsCommand (delete k) = len k ≤ 256
FitsCommand noop = Unit

abbrev pub Fits : LogEntry → Type 0
Fits e = FitsCommand e.command

module _ ⦃h : Heapless⦄ where
  command_round_trip :
      (i t : ℕ) (c : Command)
      → FitsCommand c
      → disk_entry_to_log_entry (entry_to_disk (record { index = i; term = t; command = c }))
        ≡ record { index = i; term = t; command = c }
  unfolding entry_to_disk disk_entry_to_log_entry
  command_round_trip i t (put k v) fits =
      rw (string_of_fits 256 k fits.0, vec_of_fits 1024 v fits.1)
  command_round_trip i t (delete k) fits = rw (string_of_fits 256 k fits)
  command_round_trip i t noop fits = refl

  -- An entry within the capacities is read back from its disk form exactly.
  pub disk_entry-entry_to_disk :
      (e : LogEntry) → Fits e → disk_entry_to_log_entry (entry_to_disk e) ≡ e
  disk_entry-entry_to_disk e fits = command_round_trip e.index e.term e.command fits

module _ ⦃j : Json⦄ where
  -- the line that stands for an entry
  abbrev pub line_of : LogEntry → String
  line_of e = unwrap_or (j.to_line (entry_to_disk e)) ""

  pub to_line_lem : (e : LogEntry) → j.to_line (entry_to_disk e) ≡ some (line_of e)
  to_line_lem e = ground (arith, j.to_line_total (entry_to_disk e))
