-- ===== src/Ipc/Requests.antt =====
-- `process_request`.
use raft_ebpf.Prelude.{
  ℕ, number_eq, ◌==◌, String, ◌+++◌, Bool, true, false, Option, none, some, List, [], ◌∷◌, Error,
  Result, ok, err, blocked, pure, gets, ◌>>=◌, ◌>>◌, unwrap_or, map_option, if◌then◌else◌,
}
use raft_ebpf.Common.{Heapless, string_of, vec_of, Command, put, delete}
use raft_ebpf.StateMachine.Messages.{Values, get_messages}
use raft_ebpf.RaftLog.Format.{Json}
use raft_ebpf.Node.State.{RaftNode, Handler, ProposeResult, success, not_leader, failed}
use raft_ebpf.Node.Client
use raft_ebpf.Node.Client.{NodeStatus, propose, add_peer, remove_peer, get_status}

pub data IpcRequest : Type 0 where
  join : String → String → IpcRequest
  leave : String → IpcRequest
  status : IpcRequest
  propose_request : String → Option String → IpcRequest
  get_request : String → IpcRequest
  send_request : String → IpcRequest
  messages_request : Option ℕ → Option ℕ → IpcRequest

-- the texts of the answers, by their parts
pub data IpcMessage : Type 0 where
  text : String → IpcMessage
  added_peer : String → String → IpcMessage
  removed_peer : String → IpcMessage
  committed_at : ℕ → IpcMessage
  message_sent : ℕ → IpcMessage
  propose_failed send_failed : Error → IpcMessage
  -- a line that is no request; the reason that serde_json gives is left out
  invalid_request : IpcMessage

-- `String::as_bytes`, the decimal text of a number, and the JSON text of a message in bytes
pub record Texts : Type 0 where
  pub as_bytes : String → List ℕ
  pub decimal : ℕ → String
  pub message_json : String → ℕ → String → List ℕ

-- what `timeout(rx.recv())` gives
pub data Received : Type 0 where
  arrived : ProposeResult → Received
  closed timed_out : Received

module _ ⦃v : Values⦄ where
  -- the JSON that goes with an answer; a value is kept in bytes, which the source shows as a text
  pub data IpcData : Type 0 where
    status_of : NodeStatus → IpcData
    leader_of : String → IpcData
    value_of : String → Option (List ℕ) → IpcData
    index_of : ℕ → IpcData
    messages_of : List v.Value → ℕ → IpcData

  pub record IpcResponse : Type 0 where
    pub success : Bool
    pub message : IpcMessage
    -- the source's field `data`
    pub response_data : Option IpcData

  abbrev pub accepted : IpcMessage → Option IpcData → IpcResponse
  accepted message d = record { success = true; message = message; response_data = d }

  abbrev pub refused : IpcMessage → Option IpcData → IpcResponse
  refused message d = record { success = false; message = message; response_data = d }

  -- the match on the reply to a proposal
  abbrev pub propose_answer : Received → IpcResponse
  propose_answer (arrived (success index)) = accepted (committed_at index) none
  propose_answer (arrived (not_leader leader_id)) =
      refused (text "Not leader") (map_option leader_of leader_id)
  propose_answer (arrived (failed reason)) = refused (text reason) none
  propose_answer closed = refused (text "Channel closed") none
  propose_answer timed_out = refused (text "Timeout waiting for commit") none

  abbrev pub send_answer : Received → IpcResponse
  send_answer (arrived (success index)) = accepted (message_sent index) (some (index_of index))
  send_answer (arrived (not_leader leader_id)) =
      refused (text "Not leader - send to leader node") (map_option leader_of leader_id)
  send_answer (arrived (failed reason)) = refused (text reason) none
  send_answer closed = refused (text "Channel closed") none
  send_answer timed_out = refused (text "Timeout waiting for replication") none

  -- the first reply that the channel `tx` holds already, or what comes later
  abbrev pub receive_reply : ℕ → Received → List (ℕ × ProposeResult) → Received
  receive_reply tx later [] = later
  receive_reply tx later ((channel, result) ∷ replies) =
      let rest = receive_reply tx later replies in if channel == tx then arrived result else rest

  -- `if let Err(e) = node.propose(command, tx).await { return … }`, and the wait for the reply
  abbrev pub after_propose :
      (Error → IpcMessage)
      → (Received → IpcResponse)
      → ℕ
      → Received
      → Result (Unit {0}) × RaftNode
      → Result IpcResponse × RaftNode
  after_propose on_error on_reply tx later (ok u, n) =
      (ok (on_reply (receive_reply tx later n.replies)), n)
  after_propose on_error on_reply tx later (err e, n) = (ok (refused (on_error e) none), n)
  after_propose on_error on_reply tx later (blocked, n) = (blocked, n)

  module _ ⦃h : Heapless⦄ ⦃j : Json⦄ ⦃t : Texts⦄ where
    abbrev pub command_of : String → Option String → Command
    command_of key none = delete (string_of 256 key)
    command_of key (some value) = put (string_of 256 key) (vec_of 1024 (t.as_bytes value))

    abbrev pub message_command : String → ℕ → String → Command
    message_command node_id timestamp message =
        put (string_of 256 ("_msg:" +++ t.decimal timestamp))
          (vec_of 1024 (t.message_json node_id timestamp message))

    -- `tx` is the new reply channel, `later` what arrives on it, and `now` the system's clock
    unfoldable pub process_request : ℕ → Received → ℕ → IpcRequest → Handler IpcResponse
    unfolding add_peer remove_peer get_status propose get_messages Client.get_value
    process_request tx later now (join node_id address) = do
      add_peer node_id address
      pure (accepted (added_peer node_id address) none)
    process_request tx later now (leave node_id) = do
      remove_peer node_id
      pure (accepted (removed_peer node_id) none)
    process_request tx later now status = do
      s ← get_status
      pure (accepted (text "OK") (some (status_of s)))
    process_request tx later now (propose_request key value) = λ n.
        after_propose propose_failed propose_answer tx later (propose (command_of key value) tx n)
    process_request tx later now (get_request key) = do
      value ← Client.get_value key
      pure (accepted (text "OK") (some (value_of key value)))
    process_request tx later now (send_request message) = λ n.
        after_propose send_failed send_answer tx later
          (propose (message_command n.node_id now message) tx n)
    process_request tx later now (messages_request limit since_index) = do
      messages ← gets (λ n. get_messages (unwrap_or limit 10) n.state_machine)
      s ← get_status
      pure (accepted (text "OK") (some (messages_of messages s.last_applied)))
