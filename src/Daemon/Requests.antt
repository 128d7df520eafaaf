-- ===== src/Daemon/Requests.antt =====
-- The requests of the command line tool, to a node in the middle of a run.
use raft_ebpf.Prelude.{
  ℕ, ◌+◌, ◌≤◌, ◌<◌, String, len, ◌+++◌, Option, none, some, List, [], ◌∷◌, ◌++◌, length,
  length-append, ltb→lt, ltb→le, leb→le, leb, ltb, Bool-cases, inl, inr, Error, Result, ok, err,
  blocked, u64_mod, arith,
}
use raft_ebpf.Common.{Heapless, string_of, string_of_fits, push_all}
use raft_ebpf.StateMachine.Messages.{Values}
use raft_ebpf.RaftLog.Format.{Json}
use raft_ebpf.RaftLog.RoundTrip.{FitsCommand}
use raft_ebpf.Node.State.{RaftNode}
use raft_ebpf.Node.Client
use raft_ebpf.Node.Client.{propose}
use raft_ebpf.Ipc.Requests.{
  Texts, IpcRequest, join, leave, status, propose_request, get_request, send_request,
  messages_request, IpcMessage, IpcResponse, Received, propose_failed, propose_answer, send_failed,
  send_answer, after_propose, command_of, message_command, process_request,
}
use raft_ebpf.Daemon.Sound.{Sound}
use raft_ebpf.Daemon.Safe.{Safe, safe_rules}
use raft_ebpf.Daemon.Handlers.{add_peer-Safe, remove_peer-Safe, get_status-Safe}
use raft_ebpf.Daemon.Committing.{propose-Sound}

module _ ⦃h : Heapless⦄ where
  -- what is cut to a capacity fits it
  string_of_bound : (n : ℕ) (s : String) → len (string_of n s) ≤ n
  string_of_bound n s = elim (Bool-cases (leb (len s) n)) [
    | inl fits ↦ rw (string_of_fits n s (leb→le (len s) n fits)) (leb→le (len s) n fits)
    | inr over ↦ rw (h.push_str_full n "" s (ground arith)) (omega arith)
  ]

  push_all_bound : (n : ℕ) (v bs : List ℕ) → length v ≤ n → length (push_all n v bs) ≤ n
  push_all_bound n v [] small = small
  push_all_bound n v (b ∷ bs) small = elim (Bool-cases (ltb (length v) n)) [
    | inl room ↦ rw (h.push_fits n v b (ltb→lt (length v) n room)) (
        push_all_bound n (v ++ b ∷ []) bs
          (omega (arith, length-append v (b ∷ []), ltb→lt (length v) n room)))
    | inr full ↦ rw (h.push_full n v b (ltb→le (length v) n full)) (push_all_bound n v bs small)
  ]

module _ ⦃h : Heapless⦄ ⦃j : Json⦄ ⦃v : Values⦄ ⦃t : Texts⦄ where
  -- what a client asks for always fits the log
  command_of-Fits : (key : String) (value : Option String) → FitsCommand (command_of key value)
  command_of-Fits key none = string_of_bound 256 key
  command_of-Fits key (some value) =
      (string_of_bound 256 key, push_all_bound 1024 [] (t.as_bytes value) (omega arith))

  message_command-Fits :
      (node_id : String) (timestamp : ℕ) (message : String)
      → FitsCommand (message_command node_id timestamp message)
  message_command-Fits node_id timestamp message = (
    string_of_bound 256 ("_msg:" +++ t.decimal timestamp),
    push_all_bound 1024 [] (t.message_json node_id timestamp message) (omega arith),
  )

  after_propose_node :
      (on_error : Error → IpcMessage) (on_reply : Received → IpcResponse) (tx : ℕ)
      (later : Received) (x : Result (Unit {0}) × RaftNode)
      → Sound x.1
      → Sound (after_propose on_error on_reply tx later x).1
  after_propose_node on_error on_reply tx later (ok u, n) s = s
  after_propose_node on_error on_reply tx later (err e, n) s = s
  after_propose_node on_error on_reply tx later (blocked, n) s = s

  -- the requests that do not propose
  abbrev IsQuiet : IpcRequest → Type 0
  IsQuiet (propose_request key value) = ⊥
  IsQuiet (send_request message) = ⊥
  IsQuiet _ = Unit

  quiet_request-Safe :
      (tx : ℕ) (later : Received) (now : ℕ) (request : IpcRequest)
      → IsQuiet request
      → Safe (process_request tx later now request)
  unfolding process_request Client.get_value
  quiet_request-Safe tx later now (join node_id address) q = search (safe_rules, add_peer-Safe)
  quiet_request-Safe tx later now (leave node_id) q = search (safe_rules, remove_peer-Safe)
  quiet_request-Safe tx later now status q = search (safe_rules, get_status-Safe)
  quiet_request-Safe tx later now (propose_request key value) q = absurd q
  quiet_request-Safe tx later now (get_request key) q = search safe_rules
  quiet_request-Safe tx later now (send_request message) q = absurd q
  quiet_request-Safe tx later now (messages_request limit since_index) q =
      search (safe_rules, get_status-Safe)

  pub process_request-Sound :
      (tx : ℕ) (later : Received) (now : ℕ) (request : IpcRequest) (n : RaftNode)
      → n.log.last_index + 1 < u64_mod
      → Sound n
      → Sound (process_request tx later now request n).1
  unfolding process_request
  process_request-Sound tx later now (propose_request key value) n room s =
      after_propose_node propose_failed propose_answer tx later
        (propose (command_of key value) tx n)
        (propose-Sound (command_of key value) tx n room (command_of-Fits key value) s)
  process_request-Sound tx later now (send_request message) n room s =
      after_propose_node send_failed send_answer tx later
        (propose (message_command n.node_id now message) tx n)
        (propose-Sound (message_command n.node_id now message) tx n room
          (message_command-Fits n.node_id now message) s)
  process_request-Sound tx later now (join node_id address) n room s =
      (quiet_request-Safe tx later now (join node_id address) tt).at n s
  process_request-Sound tx later now (leave node_id) n room s =
      (quiet_request-Safe tx later now (leave node_id) tt).at n s
  process_request-Sound tx later now status n room s =
      (quiet_request-Safe tx later now status tt).at n s
  process_request-Sound tx later now (get_request key) n room s =
      (quiet_request-Safe tx later now (get_request key) tt).at n s
  process_request-Sound tx later now (messages_request limit since_index) n room s =
      (quiet_request-Safe tx later now (messages_request limit since_index) tt).at n s
