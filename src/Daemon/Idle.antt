-- ===== src/Daemon/Idle.antt =====
-- A daemon whose configured timeouts are out of order.
use mathlib.Core.Path.{subst}
use raft_ebpf.Prelude.{
  ℕ, ◌<◌, String, false, ◌≡◌, refl, ap, ◌∙◌, map_option, Error, Result, ok, err, blocked, List, [],
  ◌∷◌,
}
use raft_ebpf.Common.{
  Heapless, Command, RaftMessage, append_entries, append_entries_response, request_vote,
  request_vote_response, client_request, client_response, follower, leader, same_role,
}
use raft_ebpf.StateMachine.Messages.{Values}
use raft_ebpf.RaftLog
use raft_ebpf.RaftLog.{RaftLog}
use raft_ebpf.RaftLog.Files.{Disk}
use raft_ebpf.RaftLog.Format.{Json}
use raft_ebpf.Node.State.{RaftNode}
use raft_ebpf.Node.Client
use raft_ebpf.Node.Client.{propose, add_peer, remove_peer, get_status}
use raft_ebpf.Node.Dispatch.{dispatch, handle_message}
use raft_ebpf.Node.Following.{
  IsFollower, Follows, follows_rules, handle_append_entries-Follows,
  handle_append_entries_response-Follows, handle_request_vote-Follows,
  handle_request_vote_response-Follows,
}
use raft_ebpf.Ipc.Requests.{
  Texts, IpcRequest, IpcResponse, IpcMessage, Received, join, leave, status, propose_request,
  get_request, send_request, messages_request, after_propose, propose_failed, send_failed,
  propose_answer, send_answer, command_of, message_command, process_request,
}
use raft_ebpf.Daemon.Config.{Config}
use raft_ebpf.Daemon.Start.{Rng, from_millis, opened, new_node}
use raft_ebpf.Daemon.Timers.{after_draw, election_round, heartbeat_round}
use raft_ebpf.Daemon.Calls.{
  Call, message, election_timer, heartbeat_timer, request, call, call_each,
}

module _ ⦃h : Heapless⦄ ⦃j : Json⦄ where
  dispatch-Follows : (from : String) (m : RaftMessage) → Follows (dispatch from m)
  dispatch-Follows from (append_entries req) = handle_append_entries-Follows from req
  dispatch-Follows from (append_entries_response resp) =
      handle_append_entries_response-Follows from resp
  dispatch-Follows from (request_vote req) = handle_request_vote-Follows from req
  dispatch-Follows from (request_vote_response resp) =
      handle_request_vote_response-Follows from resp
  dispatch-Follows from (client_request _) = search follows_rules
  dispatch-Follows from (client_response _) = search follows_rules

  not_leader_lem : (n : RaftNode) → IsFollower n → same_role n.role leader ≡ false
  not_leader_lem n f = ap (λ r. same_role r leader) f

  -- a follower sends no heartbeats
  heartbeat_round-Follows : (now : ℕ) → Follows (heartbeat_round now)
  unfolding heartbeat_round
  heartbeat_round-Follows now = record { at = λ n f. rw (not_leader_lem n f) f }

  propose-Follows : (c : Command) (tx : ℕ) → Follows (propose c tx)
  unfolding propose
  propose-Follows c tx = record { at = λ n f. rw (not_leader_lem n f) f }

  add_peer-Follows : (id address : String) → Follows (add_peer id address)
  unfolding add_peer
  add_peer-Follows id address = search follows_rules depth 10

module _ ⦃h : Heapless⦄ ⦃j : Json⦄ ⦃v : Values⦄ ⦃t : Texts⦄ where
  role-after_propose :
      (on_error : Error → IpcMessage) (on_reply : Received → IpcResponse) (tx : ℕ)
      (later : Received) (x : Result (Unit {0}) × RaftNode)
      → (after_propose on_error on_reply tx later x).1.role ≡ x.1.role
  role-after_propose on_error on_reply tx later (ok u, n) = refl
  role-after_propose on_error on_reply tx later (err e, n) = refl
  role-after_propose on_error on_reply tx later (blocked, n) = refl

  process_request-Follows :
      (tx : ℕ) (later : Received) (now : ℕ) (req : IpcRequest)
      → Follows (process_request tx later now req)
  unfolding process_request Client.get_value remove_peer get_status
  process_request-Follows tx later now (join node_id address) =
      search (follows_rules, add_peer-Follows)
  process_request-Follows tx later now (leave node_id) = search follows_rules
  process_request-Follows tx later now status = search follows_rules
  process_request-Follows tx later now (propose_request key value) = record {
    at = λ n f.
        role-after_propose propose_failed propose_answer tx later
          (propose (command_of key value) tx n)
        ∙ (propose-Follows (command_of key value) tx).at n f;
  }
  process_request-Follows tx later now (get_request key) = search follows_rules
  process_request-Follows tx later now (send_request text) = record {
    at = λ n f.
        role-after_propose send_failed send_answer tx later
          (propose (message_command n.node_id now text) tx n)
        ∙ (propose-Follows (message_command n.node_id now text) tx).at n f;
  }
  process_request-Follows tx later now (messages_request limit since_index) = search follows_rules

module _ ⦃h : Heapless⦄ ⦃j : Json⦄ ⦃v : Values⦄ ⦃t : Texts⦄ ⦃r : Rng⦄ (config : Config) where
  -- every round ends in a panic
  panics :
      (draw now : ℕ) (n : RaftNode)
      → config.timing.election_timeout_max_ms < config.timing.election_timeout_min_ms
      → election_round config draw now n ≡ (blocked, n)
  unfolding election_round after_draw
  panics draw now n disorder =
      ap (λ o. after_draw (map_option from_millis o) now n)
        (r.gen_range_empty draw config.timing.election_timeout_min_ms
          config.timing.election_timeout_max_ms disorder)

  call-IsFollower :
      (c : Call) (n : RaftNode)
      → config.timing.election_timeout_max_ms < config.timing.election_timeout_min_ms
      → IsFollower n
      → IsFollower (call config c n)
  unfolding handle_message
  call-IsFollower (message envelope) n disorder f =
      (dispatch-Follows envelope.from envelope.message).at n f
  call-IsFollower (election_timer draw now) n disorder f =
      ap (λ x. x.1.role) (panics draw now n disorder) ∙ f
  call-IsFollower (heartbeat_timer now) n disorder f = (heartbeat_round-Follows now).at n f
  call-IsFollower (request tx later now req) n disorder f =
      (process_request-Follows tx later now req).at n f

  call_each-IsFollower :
      (cs : List Call) (n : RaftNode)
      → config.timing.election_timeout_max_ms < config.timing.election_timeout_min_ms
      → IsFollower n
      → IsFollower (call_each config cs n)
  unfolding call_each
  call_each-IsFollower [] n disorder f = f
  call_each-IsFollower (c ∷ cs) n disorder f =
      call_each-IsFollower cs (call config c n) disorder (call-IsFollower c n disorder f)

  abbrev value_or : RaftNode → Result RaftNode → RaftNode
  value_or n (ok m) = m
  value_or n (err e) = n
  value_or n blocked = n

  opened-IsFollower :
      (now : ℕ) (n : RaftNode) (x : Result (Unit {0}) × RaftLog)
      → opened config now x ≡ ok n
      → IsFollower n
  opened-IsFollower now n (ok u, log) e = subst IsFollower (ap (value_or n) e) refl
  opened-IsFollower now n (err x, log) e = absurd cc
  opened-IsFollower now n (blocked, log) e = absurd cc

  -- A daemon that starts with a lower bound of the election timeout above the upper one is a follower
  -- after any messages, timer rounds and requests, in any order: it is never a candidate or a leader.
  pub disordered-follows :
      (start : ℕ) (disk : Disk) (calls : List Call) (n : RaftNode)
      → config.timing.election_timeout_max_ms < config.timing.election_timeout_min_ms
      → new_node config start disk ≡ ok n
      → (call_each config calls n).role ≡ follower
  unfolding new_node
  disordered-follows start disk calls n disorder started =
      call_each-IsFollower calls n disorder (opened-IsFollower start n (RaftLog.new disk) started)
