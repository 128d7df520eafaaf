-- ===== src/Node/Locks.antt =====
-- The locks of raft/src/node.rs that `get_status` and `apply_committed_entries` take, and tasks that
-- run the two at once.
use raft_ebpf.Prelude.{
  ℕ, zero, suc, Bool, true, false, List, [], ◌∷◌, ◌&&◌, not, eqb, if◌then◌else◌,
}

-- the locks of a `RaftNode`
pub data Lock : Type 0 where
  role log state_machine commit_index last_applied leader_id peers : Lock

abbrev number_of : Lock → ℕ
number_of role = 0
number_of log = 1
number_of state_machine = 2
number_of commit_index = 3
number_of last_applied = 4
number_of leader_id = 5
number_of peers = 6

abbrev pub same_lock : Lock → Lock → Bool
same_lock l k = eqb (number_of l) (number_of k)

-- `lock().await` of a Mutex and `write().await`, `read().await`, and the drop of a guard
pub data Action : Type 0 where
  exclusive : Lock → Action
  shared : Lock → Action
  unlock : Lock → Action

-- a guard, and the task that has it
pub record Guard : Type 0 where
  pub task : ℕ
  pub on : Lock
  pub writes : Bool

-- what the tasks have locked, and what each has still to do
pub record Tasks : Type 0 where
  pub guards : List Guard
  pub rest : ℕ → List Action

abbrev pub none_on : Lock → List Guard → Bool
none_on l [] = true
none_on l (g ∷ gs) = not (same_lock g.on l) && none_on l gs

abbrev pub none_writes : Lock → List Guard → Bool
none_writes l [] = true
none_writes l (g ∷ gs) = not (same_lock g.on l && g.writes) && none_writes l gs

abbrev pub granted : Action → List Guard → Bool
granted (exclusive l) gs = none_on l gs
granted (shared l) gs = none_writes l gs
granted (unlock l) gs = true

abbrev pub drop_guard : ℕ → Lock → List Guard → List Guard
drop_guard i l [] = []
drop_guard i l (g ∷ gs) =
    let rest = drop_guard i l gs in if eqb g.task i && same_lock g.on l then gs else g ∷ rest

abbrev pub after : ℕ → Action → List Guard → List Guard
after i (exclusive l) gs = record { task = i; on = l; writes = true } ∷ gs
after i (shared l) gs = record { task = i; on = l; writes = false } ∷ gs
after i (unlock l) gs = drop_guard i l gs

abbrev pub set : (ℕ → List Action) → ℕ → List Action → ℕ → List Action
set rest i actions k = if eqb k i then actions else rest k

-- the next action of a task, which waits where its lock is not granted
abbrev pub act : ℕ → List Action → Tasks → Tasks
act i [] s = s
act i (a ∷ actions) s =
    if granted a s.guards
    then record { guards = after i a s.guards; rest = set s.rest i actions }
    else s

unfoldable pub run : List ℕ → Tasks → Tasks
run [] s = s
run (i ∷ schedule) s = run schedule (act i (s.rest i) s)

-- The guards of the last expression are held until the function returns.
abbrev pub get_status_locks : List Action
get_status_locks =
    exclusive log
    ∷ shared peers
    ∷ shared role
    ∷ shared commit_index
    ∷ shared last_applied
    ∷ shared leader_id
    ∷ unlock peers
    ∷ unlock log
    ∷ unlock leader_id
    ∷ unlock last_applied
    ∷ unlock commit_index
    ∷ unlock role
    ∷ []

abbrev pub apply_locks : List Action
apply_locks =
    shared commit_index
    ∷ unlock commit_index
    ∷ exclusive last_applied
    ∷ exclusive log
    ∷ exclusive state_machine
    ∷ unlock state_machine
    ∷ unlock log
    ∷ unlock last_applied
    ∷ []

-- a task in each of the two methods, and any other tasks
abbrev tasks : (ℕ → List Action) → ℕ → List Action
tasks others zero = get_status_locks
tasks others (suc zero) = apply_locks
tasks others (suc (suc k)) = others k

abbrev pub both : (ℕ → List Action) → Tasks
both others = record { guards = []; rest = tasks others }
