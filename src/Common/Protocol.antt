-- ===== src/Common/Protocol.antt =====
-- raft-common/src/protocol.rs: log entries, commands and the messages between nodes.
use raft_ebpf.Prelude.{ℕ, String, Bool, Option, List}
use raft_ebpf.Common.Bounded.{Heapless, string_of}

-- `heapless::String<256>` is its text, `heapless::Vec<u8, 1024>` its bytes
pub data Command : Type 0 where
  put : String → List ℕ → Command
  delete : String → Command
  noop : Command

pub record LogEntry : Type 0 where
  pub index : ℕ
  pub term : ℕ
  pub command : Command

pub record AppendEntriesRequest : Type 0 where
  pub term : ℕ
  pub leader_id : String
  pub prev_log_index : ℕ
  pub prev_log_term : ℕ
  pub entries : List LogEntry
  pub leader_commit : ℕ

pub record AppendEntriesResponse : Type 0 where
  pub term : ℕ
  pub success : Bool
  pub last_log_index : ℕ
  pub node_id : String

pub record RequestVoteRequest : Type 0 where
  pub term : ℕ
  pub candidate_id : String
  pub last_log_index : ℕ
  pub last_log_term : ℕ

pub record RequestVoteResponse : Type 0 where
  pub term : ℕ
  pub vote_granted : Bool
  pub node_id : String

pub record ClientRequest : Type 0 where
  pub request_id : ℕ
  pub command : Command

pub record ClientResponse : Type 0 where
  pub success : Bool
  pub request_id : ℕ
  -- the source's field `data`
  pub result_data : Option (List ℕ)
  pub error : Option String
  pub leader_id : Option String

pub data RaftMessage : Type 0 where
  append_entries : AppendEntriesRequest → RaftMessage
  append_entries_response : AppendEntriesResponse → RaftMessage
  request_vote : RequestVoteRequest → RaftMessage
  request_vote_response : RequestVoteResponse → RaftMessage
  client_request : ClientRequest → RaftMessage
  client_response : ClientResponse → RaftMessage

pub record MessageEnvelope : Type 0 where
  pub from : String
  pub to : String
  pub message : RaftMessage

-- `MessageEnvelope::new`
abbrev pub new_envelope : ⦃h : Heapless⦄ → String → String → RaftMessage → MessageEnvelope
new_envelope from to message = record {
  from = string_of 64 from;
  to = string_of 64 to;
  message = message;
}
