-- ===== src/RaftLog/Recovery.antt =====
-- What the files hold, and that `RaftLog::new` over them rebuilds the log that wrote them.
use raft_ebpf.Prelude.{
  ℕ, max, String, number_eq, ◌≡◌, refl, sym, ap, ◌∙◌, Option, none, some, List, [], ◌∷◌, map, ok,
  All, bind_ok, unwrap_or,
}
use raft_ebpf.HashMap.{HashMap, get, insert}
use raft_ebpf.Common.{Heapless, LogEntry, PersistentState, default_state}
use raft_ebpf.RaftLog.{
  RaftLog, store_entry, entry_at, io, open_log, load_state, load_log, load_from_disk, new,
}
use raft_ebpf.RaftLog.Files.{Disk, linked}
use raft_ebpf.RaftLog.Format.{Json}
use raft_ebpf.RaftLog.RoundTrip.{Fits, line_of}
use raft_ebpf.RaftLog.Loading.{store_all, io_ok, load_lines_lem}

-- the map and the last index that a file of these entries stands for
abbrev pub replay_entries : List LogEntry → HashMap ℕ LogEntry → HashMap ℕ LogEntry
replay_entries [] m = m
replay_entries (e ∷ es) m = replay_entries es (insert m e.index e)

abbrev pub top : List LogEntry → ℕ → ℕ
top [] n = n
top (e ∷ es) n = top es (max n e.index)

pub store_all_lem :
    (es : List LogEntry) (log : RaftLog)
    → store_all es log
      ≡ record log { entries = replay_entries es log.entries; last_index = top es log.last_index }
store_all_lem [] log = refl
store_all_lem (e ∷ es) log = store_all_lem es (store_entry e log)

module _ ⦃h : Heapless⦄ ⦃j : Json⦄ where
  abbrev pub SavedState : Option String → PersistentState → Type 0
  SavedState none p = p ≡ default_state
  SavedState (some content) p = j.from_state content ≡ some p

  -- The disk holds what is in memory, the handle writes to the log's file, and no call of the file
  -- system is about to fail.
  pub record IsDurable (log : RaftLog) : Type 0 where
    pub written : List LogEntry
    pub healthy : log.disk.faults ≡ []
    pub handle : log.log_file ≡ some linked
    pub file : log.disk.log_jsonl ≡ some (map line_of written)
    pub fits : All Fits written
    pub content : (k : ℕ) → get log.entries k ≡ get (replay_entries written []) k
    pub last : log.last_index ≡ top written 0
    pub state : SavedState log.disk.state_json log.persistent_state

  abbrev started : Disk → PersistentState → RaftLog
  started disk p = record {
    entries = [];
    persistent_state = p;
    last_index = 0;
    log_file = none;
    disk = disk;
  }

  load_state_lem :
      (saved : Option String) (p : PersistentState) (disk : Disk)
      → disk.faults ≡ []
      → SavedState saved p
      → load_state saved (started disk default_state) ≡ (ok tt, started disk p)
  unfolding load_state
  load_state_lem none p disk healthy s = rw s
  load_state_lem (some content) p disk healthy s =
      rw (io_ok (started disk default_state) healthy, s)

  load_log_lem :
      (saved : Option (List String)) (es : List LogEntry) (log : RaftLog)
      → saved ≡ some (map line_of es)
      → log.disk.faults ≡ []
      → All Fits es
      → load_log saved log ≡ (ok tt, store_all es log)
  unfolding load_log
  load_log_lem saved es log e healthy fits =
      rw (e, io_ok log healthy) (load_lines_lem es log healthy fits)

  disk-store_all : (es : List LogEntry) (log : RaftLog) → (store_all es log).disk ≡ log.disk
  disk-store_all es log = ap (λ (l : RaftLog). l.disk) (store_all_lem es log)

  new_lem :
      (disk : Disk) (p : PersistentState) (es : List LogEntry)
      → disk.faults ≡ []
      → disk.log_jsonl ≡ some (map line_of es)
      → All Fits es
      → SavedState disk.state_json p
      → new disk ≡ (ok tt, open_log (store_all es (started disk p)))
  unfolding new load_from_disk
  new_lem disk p es healthy file fits s =
      bind_ok io (λ _. load_from_disk) (io_ok (started disk default_state) healthy)
      ∙ bind_ok (load_state disk.state_json) _ (load_state_lem disk.state_json p disk healthy s)
      ∙ bind_ok (load_log disk.log_jsonl) _
          (load_log_lem disk.log_jsonl es (started disk p) file healthy fits)
      ∙ bind_ok io _ (
          io_ok (store_all es (started disk p))
            (ap (λ (d : Disk). d.faults) (disk-store_all es (started disk p)) ∙ healthy))

  -- When the files hold what is in memory, a restart over them succeeds and gives a log with the
  -- same entry at every index, the same last index, the same term and the same vote.
  pub new-recovers :
      (log : RaftLog)
      → IsDurable log
      → let (r, again) = new log.disk in
        (r ≡ ok tt)
        × ((k : ℕ) → entry_at again k ≡ entry_at log k)
        × (again.last_index ≡ log.last_index)
        × (again.persistent_state ≡ log.persistent_state)
  new-recovers log d =
      let fresh = started log.disk log.persistent_state in
      let e = store_all_lem d.written fresh in
      rw (new_lem log.disk log.persistent_state d.written d.healthy d.file d.fits d.state) (
        refl,
        λ k. ap (λ (l : RaftLog). get l.entries k) e ∙ sym (d.content k),
        ap (λ (l : RaftLog). l.last_index) e ∙ sym d.last,
        ap (λ (l : RaftLog). l.persistent_state) e,
      )

  -- The log that a restart gives is in step with its files again, so it can go on from there.
  pub new-IsDurable : (log : RaftLog) → IsDurable log → IsDurable (new log.disk).1
  new-IsDurable log d =
      let fresh = started log.disk log.persistent_state in
      let e = store_all_lem d.written fresh in
      rw (new_lem log.disk log.persistent_state d.written d.healthy d.file d.fits d.state, e)
        (record {
          written = d.written;
          healthy = d.healthy;
          handle = refl;
          file = ap (λ (o : Option (List String)). some (unwrap_or o [])) d.file;
          fits = d.fits;
          content = λ k. refl;
          last = refl;
          state = d.state;
        })
