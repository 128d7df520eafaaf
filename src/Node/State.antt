-- ===== src/Node/State.antt =====
-- `RaftNode` as a record, and the ways in which a handler changes it.
--
-- A handler runs from its call to its return; what other tasks do between its awaits is not
-- modelled, and so the `RwLock`s are plain fields. The `Mutex` of the log is modelled by
-- `log_held`: a task that locks it again while it holds it waits for ever.
use raft_ebpf.Prelude.{
  ℕ, String, Bool, true, false, Option, List, [], ◌∷◌, ◌++◌, ◌≡◌, refl, Exec, Result, ok, err,
  blocked, modify, if◌then◌else◌,
}
use raft_ebpf.HashMap.{HashMap}
use raft_ebpf.Common.{NodeRole, PeerInfo, MessageEnvelope}
use raft_ebpf.StateMachine.{StateMachine}
use raft_ebpf.RaftLog.{RaftLog}

pub data ProposeResult : Type 0 where
  success : ℕ → ProposeResult
  not_leader : Option String → ProposeResult
  failed : String → ProposeResult

pub record RaftNode : Type 0 where
  pub node_id : String
  pub role : NodeRole
  pub log : RaftLog
  -- a task holds the guard of `log`
  pub log_held : Bool
  pub state_machine : StateMachine
  pub commit_index : ℕ
  pub last_applied : ℕ
  pub leader_id : Option String
  pub peers : HashMap String PeerInfo
  pub next_index : HashMap String ℕ
  pub match_index : HashMap String ℕ
  pub votes_received : List String
  pub last_heartbeat : ℕ
  -- what `Instant::now` reads
  pub clock : ℕ
  -- what was sent to `outgoing_tx`, the oldest first; the channel's bound is not modelled
  pub outgoing : List MessageEnvelope
  -- the reply channel of each index, by a number
  pub pending_requests : HashMap ℕ ℕ
  -- what was sent to the reply channels
  pub replies : List (ℕ × ProposeResult)

abbrev pub Handler : Type 0 → Type 0
Handler A = Exec RaftNode A

abbrev pub set_role : NodeRole → Handler (Unit {0})
set_role role = modify (λ n. record n { role = role })

-- `*self.last_heartbeat.write().await = Instant::now()`
abbrev pub reset_timer : Handler (Unit {0})
reset_timer = modify (λ n. record n { last_heartbeat = n.clock })

-- `let _ = self.outgoing_tx.send(envelope).await`
abbrev pub send : MessageEnvelope → Handler (Unit {0})
send envelope = modify (λ n. record n { outgoing = n.outgoing ++ envelope ∷ [] })

-- `let _ = tx.send(result).await`
abbrev pub reply : ℕ → ProposeResult → Handler (Unit {0})
reply channel result = modify (λ n. record n { replies = n.replies ++ (channel, result) ∷ [] })

-- `if let Err(e) = call.await { warn!(…) }`
abbrev pub warn_error : Result (Unit {0}) × RaftNode → Result (Unit {0}) × RaftNode
warn_error (ok a, n) = (ok a, n)
warn_error (err e, n) = (ok tt, n)
warn_error (blocked, n) = (blocked, n)

abbrev pub warned : Handler (Unit {0}) → Handler (Unit {0})
warned call n = warn_error (call n)

module _ {A : Type 0} where
  -- an operation of the log, on the guarded value
  abbrev pub on_log : Exec RaftLog A → Handler A
  on_log m n = let (r, log) = m n.log in (r, record n { log = log })

  -- the guard is dropped at a return and at `?`, and not by a task that waits for ever
  abbrev pub release : Result A × RaftNode → Result A × RaftNode
  release (ok a, n) = (ok a, record n { log_held = false })
  release (err e, n) = (err e, record n { log_held = false })
  release (blocked, n) = (blocked, n)

  -- `let log = self.log.lock().await; body`, to the end of the guard's scope
  abbrev pub with_log : Handler A → Handler A
  with_log body n =
      if n.log_held then (blocked, n) else release (body (record n { log_held = true }))

module _ {A : Type 0} where
  -- a body that goes on under the guard, where the mutex is free
  pub with_log_run :
      (body : Handler A) (n : RaftNode) {a : A} {t : RaftNode}
      → n.log_held ≡ false
      → body (record n { log_held = true }) ≡ (ok a, t)
      → with_log body n ≡ (ok a, record t { log_held = false })
  with_log_run body n free e = rw (free, e) refl
