-- ===== src/StateMachine.antt =====
-- raft/src/state_machine.rs: the replicated key-value store.

pub mod Semantics
pub mod Messages
pub mod Snapshot
pub mod Replay
use raft_ebpf.Prelude.{
  ℕ, text_eq, String, Bool, ◌≡◌, Option, none, some, List, [], ◌∷◌, Exec, Error, json, or_throw,
  modify, ◌>>=◌, leb, unwrap_or, if◌then◌else◌,
}
use raft_ebpf.HashMap.{HashMap, get, insert, remove, keys}
use raft_ebpf.Common.{Command, put, delete, LogEntry}

pub record StateMachine : Type 0 where
  -- the source's field `data`
  pub pairs : HashMap String (List ℕ)
  pub last_applied : ℕ

pub data ApplyResult : Type 0 where
  ok : ApplyResult
  value : Option (List ℕ) → ApplyResult
  noop : ApplyResult

-- `StateMachine::new`, and `Default`
abbrev pub new : StateMachine
new = record { pairs = []; last_applied = 0 }

-- the match on `&entry.command`
abbrev pub run_command : Command → HashMap String (List ℕ) → ApplyResult × HashMap String (List ℕ)
run_command (put key v) m = (ApplyResult.ok, insert m key v)
run_command (delete key) m = (ApplyResult.ok, remove m key)
run_command Command.noop m = (ApplyResult.noop, m)

unfoldable pub apply : LogEntry → StateMachine → ApplyResult × StateMachine
apply entry sm =
    if leb entry.index sm.last_applied
    then (ApplyResult.ok, sm)
    else (let (result, m) = run_command entry.command sm.pairs in
        (result, record { pairs = m; last_applied = entry.index }))

-- `StateMachine::get`
unfoldable pub get_value : StateMachine → String → Option (List ℕ)
get_value sm key = get sm.pairs key

-- `StateMachine::keys`
unfoldable pub all_keys : StateMachine → List String
all_keys sm = keys sm.pairs

-- The crate `bincode`. Reading back a written map may give its entries in another order.
pub record Bincode : Type 0 where
  pub serialize : HashMap String (List ℕ) → Option (List ℕ)
  pub deserialize : List ℕ → Option (HashMap String (List ℕ))
  pub round_trip :
      (m : HashMap String (List ℕ)) {b : List ℕ}
      → serialize m ≡ some b
      → (m' : HashMap String (List ℕ)) × (deserialize b ≡ some m')
        × ((k : String) → get m' k ≡ get m k)

module _ ⦃b : Bincode⦄ where
  unfoldable pub snapshot : StateMachine → List ℕ
  snapshot sm = unwrap_or (b.serialize sm.pairs) []

  unfoldable pub restore : List ℕ → ℕ → Exec StateMachine (Unit {0})
  restore bytes last_index = do
    m ← or_throw (b.deserialize bytes) json
    modify (λ sm. record { pairs = m; last_applied = last_index })
