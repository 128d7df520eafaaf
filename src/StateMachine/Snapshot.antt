-- ===== src/StateMachine/Snapshot.antt =====
-- `snapshot` and `restore`.
use raft_ebpf.Prelude.{ℕ, String, text_eq, ◌≡◌, refl, some, List, ok}
use raft_ebpf.StateMachine.{StateMachine, Bincode, snapshot, restore, get_value}

module _ ⦃b : Bincode⦄ where
  -- A store whose map bincode can write is read back from its snapshot: whatever the store it is
  -- restored into held, every key then has the value it had, and the last applied index is the one
  -- that is given.
  pub restore-snapshot :
      (sm other : StateMachine) (last_index : ℕ) (bytes : List ℕ)
      → b.serialize sm.pairs ≡ some bytes
      → let (r, sm') = restore (snapshot sm) last_index other in
        (r ≡ ok tt)
        × ((key : String) → get_value sm' key ≡ get_value sm key)
        × (sm'.last_applied ≡ last_index)
  unfolding snapshot restore get_value
  restore-snapshot sm other last_index bytes written =
      let (m, read, same) = b.round_trip sm.pairs written in rw (written, read) (refl, same, refl)
