-- ===== src/Tests/IpcRuns.antt =====
-- The theorems on the requests of the command line tool and on messages, applied to runs.
use mathlib.Core.List.{Perm}
use raft_ebpf.Prelude.{
  ◌++◌, none, ℕ, ◌+◌, len, text_eq, number_eq, ◌≡◌, refl, some, List, [], ◌∷◌, map, take, ok, arith,
}
use raft_ebpf.HashMap.{HashMap, get}
use raft_ebpf.Common.{leader, LogEntry, put}
use raft_ebpf.StateMachine
use raft_ebpf.StateMachine.{StateMachine, Bincode, snapshot, restore, apply}
use raft_ebpf.StateMachine.Semantics.{apply_entries}
use raft_ebpf.StateMachine.Replay.{Same, restore-replays}
use mathlib.Core.Path.{subst}
use raft_ebpf.Prelude.{some-inj, String, Option}
use raft_ebpf.StateMachine.Messages.{
  Values, found, NewestFirst, get_messages, get_messages-NewestFirst,
}
use raft_ebpf.RaftLog
use raft_ebpf.RaftLog.{new, current_term, entry_at}
use raft_ebpf.RaftLog.Recovery.{IsDurable}
use raft_ebpf.Ipc.Requests.{
  Texts, timed_out, join, leave, propose_request, propose_answer, command_of, process_request,
}
use raft_ebpf.Ipc.Membership.{Without, process_request-leave}
use raft_ebpf.Ipc.Proposal.{process_request-proposes}
use raft_ebpf.Tests.Libraries.{bounded, unary}
use raft_ebpf.Tests.Log.{two, two-IsDurable}
use raft_ebpf.Tests.Nodes.{node}

-- values that are their bytes
instance abbrev pub raw : Values
raw = record { Value = List ℕ; from_bytes = λ b. some b }

-- texts of ASCII dots
instance abbrev pub dots : Texts
dots = record {
  as_bytes = λ s. len s ∷ [];
  decimal = λ n. "5";
  message_json = λ node_id timestamp message. timestamp ∷ len message ∷ [];
}

abbrev store : StateMachine
store = record {
  pairs = ("_msg:7", 1 ∷ []) ∷ ("a", 2 ∷ []) ∷ ("_msg:12", 3 ∷ []) ∷ ("_msg:x", 4 ∷ []) ∷ [];
  last_applied = 4;
}

newest_two : get_messages 2 store ≡ (3 ∷ []) ∷ (1 ∷ []) ∷ []
unfolding get_messages
newest_two = refl

get_messages-NewestFirst_example :
    (sorted : List (ℕ × List ℕ)) × Perm sorted (found store.pairs)
    × NewestFirst sorted
    × (get_messages 1 store ≡ map (λ m. m.1) (take 1 sorted))
get_messages-NewestFirst_example = get_messages-NewestFirst 1 store

process_request-leave_example :
    let n' = (process_request 7 timed_out 5 (join "d" "d:1") (node leader)).1 in
    let n'' = (process_request 7 timed_out 5 (leave "d") n').1 in
    Without "d" (node leader).peers n''.peers
    × Without "d" (node leader).next_index n''.next_index
    × Without "d" (node leader).match_index n''.match_index
    × (n''.log ≡ two)
process_request-leave_example = process_request-leave 7 5 timed_out "d" "d:1" (node leader) refl

process_request-proposes_example :
    let (r, n') = process_request 7 timed_out 5 (propose_request "a" (some "v")) (node leader) in
    let next = two.last_index + 1 in
    (r ≡ ok (propose_answer timed_out))
    × IsDurable n'.log
    × (entry_at n'.log next
        ≡ some
            (record { index = next; term = current_term two; command = command_of "a" (some "v") }))
    × (get n'.pending_requests next ≡ some 7)
unfolding new RaftLog.append_entries
process_request-proposes_example =
    process_request-proposes 7 5 timed_out "a" (some "v") (node leader) refl refl (omega arith)
      (omega arith, omega arith) two-IsDurable tt

-- it writes a map of at most one pair, whose key is empty
abbrev write_pairs : HashMap String (List ℕ) → Option (List ℕ)
write_pairs [] = some []
write_pairs ((String.[], value) ∷ []) = some (1 ∷ value)
write_pairs _ = none

abbrev read_pairs : List ℕ → Option (HashMap String (List ℕ))
read_pairs [] = some []
read_pairs (n ∷ value) = some (("", value) ∷ [])

pub read-write_pairs :
    (m : HashMap String (List ℕ)) {b : List ℕ}
    → write_pairs m ≡ some b
    → (m' : HashMap String (List ℕ)) × (read_pairs b ≡ some m')
      × ((k : String) → get m' k ≡ get m k)
read-write_pairs [] written =
    ([], subst (λ (b : List ℕ). read_pairs b ≡ some []) (some-inj _ _ written) refl, λ k. refl)
read-write_pairs ((String.[], value) ∷ []) written = (
  ("", value) ∷ [],
  subst (λ (b : List ℕ). read_pairs b ≡ some (("", value) ∷ [])) (some-inj _ _ written) refl,
  λ k. refl,
)
read-write_pairs ((String.[], value) ∷ p ∷ m) written = absurd cc
read-write_pairs ((String.◌∷◌ c s, value) ∷ m) written = absurd cc

instance abbrev pub small : Bincode
small = record { serialize = write_pairs; deserialize = read_pairs; round_trip = read-write_pairs }

-- two entries that the snapshot holds, and one after it
abbrev early : List LogEntry
early =
    record { index = 1; term = 1; command = put "" (7 ∷ []) }
    ∷ record { index = 2; term = 1; command = put "" (4 ∷ []) }
    ∷ []

abbrev late : List LogEntry
late = record { index = 3; term = 2; command = put "a" (9 ∷ []) } ∷ []

restore-replays_example :
    let sm = apply_entries early StateMachine.new in
    let (r, restored) = restore (snapshot sm) sm.last_applied store in
    (r ≡ ok tt)
    × Same (apply_entries (early ++ late) restored) (apply_entries (early ++ late) StateMachine.new)
unfolding apply_entries apply
restore-replays_example =
    restore-replays early late StateMachine.new store (1 ∷ 4 ∷ []) (refl, (refl, tt)) refl
