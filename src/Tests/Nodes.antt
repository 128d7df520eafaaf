-- ===== src/Tests/Nodes.antt =====
-- Nodes and messages at concrete inputs.
use raft_ebpf.Prelude.{none, [], ◌∷◌, true, false}
use raft_ebpf.Common.{
  NodeRole, new_peer, AppendEntriesRequest, RequestVoteRequest, RequestVoteResponse,
}
use raft_ebpf.StateMachine
use raft_ebpf.Node.State.{RaftNode}
use raft_ebpf.Tests.Libraries.{bounded, unary}
use raft_ebpf.Tests.Log.{two, delete_2, delete_3}

-- node "a" of a cluster of three, with two entries of its term in its log
abbrev pub node : NodeRole → RaftNode
node role = record {
  node_id = "a";
  role = role;
  log = two;
  log_held = false;
  state_machine = StateMachine.new;
  commit_index = 0;
  last_applied = 0;
  leader_id = none;
  peers = ("b", new_peer "b" "b:1") ∷ ("c", new_peer "c" "c:1") ∷ [];
  next_index = ("b", 3) ∷ ("c", 1) ∷ [];
  match_index = ("b", 2) ∷ ("c", 0) ∷ [];
  votes_received = "a" ∷ [];
  last_heartbeat = 0;
  clock = 5;
  outgoing = [];
  pending_requests = (1, 10) ∷ (2, 11) ∷ [];
  replies = [];
}

-- a leader's request that replaces the second entry
abbrev pub replace_second : AppendEntriesRequest
replace_second = record {
  term = 2;
  leader_id = "b";
  prev_log_index = 1;
  prev_log_term = 1;
  entries = delete_2 ∷ delete_3 ∷ [];
  leader_commit = 2;
}

-- one that does not join on to the log, and one of an older term
abbrev pub gap : AppendEntriesRequest
gap = record replace_second { prev_log_index = 5 }

abbrev pub stale : AppendEntriesRequest
stale = record replace_second { term = 0 }

abbrev pub ask : RequestVoteRequest
ask = record { term = 2; candidate_id = "b"; last_log_index = 2; last_log_term = 1 }

abbrev pub granted : RequestVoteResponse
granted = record { term = 0; vote_granted = true; node_id = "b" }
