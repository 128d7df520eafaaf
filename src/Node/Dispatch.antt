-- ===== src/Node/Dispatch.antt =====
-- `handle_message`: one handler for each kind of message.
use raft_ebpf.Prelude.{pure}
use raft_ebpf.Common.{
  Heapless, MessageEnvelope, RaftMessage, append_entries, append_entries_response, request_vote,
  request_vote_response, client_request, client_response,
}
use raft_ebpf.RaftLog.Format.{Json}
use raft_ebpf.Node.State.{Handler}
use raft_ebpf.Node.Follow.{handle_append_entries}
use raft_ebpf.Node.Commit.{handle_append_entries_response}
use raft_ebpf.Node.Vote.{handle_request_vote}
use raft_ebpf.Node.Elect.{handle_request_vote_response}
use raft_ebpf.Prelude.{String}

module _ ⦃h : Heapless⦄ ⦃j : Json⦄ where
  abbrev pub dispatch : String → RaftMessage → Handler (Unit {0})
  dispatch from (append_entries req) = handle_append_entries from req
  dispatch from (append_entries_response resp) = handle_append_entries_response from resp
  dispatch from (request_vote req) = handle_request_vote from req
  dispatch from (request_vote_response resp) = handle_request_vote_response from resp
  -- "Handled separately"
  dispatch from (client_request _) = pure tt
  dispatch from (client_response _) = pure tt

  unfoldable pub handle_message : MessageEnvelope → Handler (Unit {0})
  unfolding handle_append_entries handle_append_entries_response handle_request_vote
      handle_request_vote_response
  handle_message envelope = dispatch envelope.from envelope.message
