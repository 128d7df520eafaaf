-- ===== src/Daemon/Calls.antt =====
-- What the tasks of the daemon are called for, one call after the other.
use raft_ebpf.Prelude.{ℕ, List, [], ◌∷◌}
use raft_ebpf.Common.{Heapless, MessageEnvelope}
use raft_ebpf.StateMachine.Messages.{Values}
use raft_ebpf.RaftLog.Format.{Json}
use raft_ebpf.Node.State.{RaftNode}
use raft_ebpf.Node.Dispatch.{handle_message}
use raft_ebpf.Ipc.Requests.{Texts, IpcRequest, Received, process_request}
use raft_ebpf.Daemon.Config.{Config}
use raft_ebpf.Daemon.Start.{Rng}
use raft_ebpf.Daemon.Timers.{election_round, heartbeat_round}

-- a call that a task of the daemon makes
pub data Call : Type 0 where
  message : MessageEnvelope → Call
  election_timer : ℕ → ℕ → Call
  heartbeat_timer : ℕ → Call
  request : ℕ → Received → ℕ → IpcRequest → Call

module _ ⦃h : Heapless⦄ ⦃j : Json⦄ ⦃v : Values⦄ ⦃t : Texts⦄ ⦃r : Rng⦄ (config : Config) where
  abbrev pub call : Call → RaftNode → RaftNode
  call (message envelope) n = (handle_message envelope n).1
  call (election_timer draw now) n = (election_round config draw now n).1
  call (heartbeat_timer now) n = (heartbeat_round now n).1
  call (request tx later now req) n = (process_request tx later now req n).1

  -- the calls one after the other, each on what the ones before have left
  unfoldable pub call_each : List Call → RaftNode → RaftNode
  call_each [] n = n
  call_each (c ∷ cs) n = call_each cs (call c n)
