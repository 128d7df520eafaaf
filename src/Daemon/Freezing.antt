-- ===== src/Daemon/Freezing.antt =====
-- A node after an AppendEntries that waits for ever, whatever its tasks are then called for.
use raft_ebpf.Prelude.{
  ℕ, ◌<◌, String, true, false, ◌≡◌, refl, ap, ◌∙◌, Option, none, some, Result, ok, err, blocked,
  Error, List, [], ◌∷◌,
}
use raft_ebpf.Common.{
  Heapless, Command, AppendEntriesRequest, MessageEnvelope, RaftMessage, append_entries,
  append_entries_response, request_vote, request_vote_response, client_request, client_response,
}
use raft_ebpf.StateMachine.Messages.{Values}
use raft_ebpf.RaftLog.{current_term}
use raft_ebpf.RaftLog.Format.{Json}
use raft_ebpf.Node.State.{RaftNode}
use raft_ebpf.Node.Follow.{handle_append_entries}
use raft_ebpf.Node.Heartbeat.{send_heartbeats}
use raft_ebpf.Node.Client
use raft_ebpf.Node.Client.{propose, add_peer, remove_peer, get_status}
use raft_ebpf.Node.Dispatch.{dispatch, handle_message}
use raft_ebpf.Node.Frozen.{frame, Frozen, frozen_rules, held_after}
use raft_ebpf.Node.Blocking.{stale_append-blocks, dispatch-blocks}
use raft_ebpf.Ipc.Requests.{
  Texts, IpcRequest, IpcResponse, IpcMessage, Received, join, leave, status, propose_request,
  get_request, send_request, messages_request, after_propose, propose_failed, send_failed,
  propose_answer, send_answer, command_of, message_command, process_request,
}
use raft_ebpf.Daemon.Config.{Config}
use raft_ebpf.Daemon.Start.{Rng, election_timeout}
use raft_ebpf.Daemon.Calls.{
  Call, message, election_timer, heartbeat_timer, request, call, call_each,
}
use raft_ebpf.Daemon.Timers.{after_draw, election_round, heartbeat_round}

module _ ⦃h : Heapless⦄ ⦃j : Json⦄ where
  dispatch-frozen :
      (from : String) (message : RaftMessage) (n : RaftNode)
      → n.log_held ≡ true
      → frame (dispatch from message n).1 ≡ frame n
  dispatch-frozen from (append_entries req) n held =
      rw (dispatch-blocks from (append_entries req) n tt held) refl
  dispatch-frozen from (append_entries_response resp) n held =
      rw (dispatch-blocks from (append_entries_response resp) n tt held) refl
  dispatch-frozen from (request_vote req) n held =
      rw (dispatch-blocks from (request_vote req) n tt held) refl
  dispatch-frozen from (request_vote_response resp) n held =
      rw (dispatch-blocks from (request_vote_response resp) n tt held) refl
  dispatch-frozen from (client_request _) n held = refl
  dispatch-frozen from (client_response _) n held = refl

  handle_message-Frozen : (envelope : MessageEnvelope) → Frozen (handle_message envelope)
  unfolding handle_message
  handle_message-Frozen envelope = record {
    at = λ n held. dispatch-frozen envelope.from envelope.message n held;
  }

  after_draw-Frozen : (o : Option ℕ) (now : ℕ) → Frozen (after_draw o now)
  unfolding after_draw
  after_draw-Frozen none now = record { at = λ n held. refl }
  after_draw-Frozen (some timeout) now = search frozen_rules depth 10

  send_heartbeats-Frozen : Frozen send_heartbeats
  unfolding send_heartbeats
  send_heartbeats-Frozen = search frozen_rules depth 10

  heartbeat_round-Frozen : (now : ℕ) → Frozen (heartbeat_round now)
  unfolding heartbeat_round
  heartbeat_round-Frozen now = search (frozen_rules, send_heartbeats-Frozen) depth 10

  propose-Frozen : (c : Command) (tx : ℕ) → Frozen (propose c tx)
  unfolding propose
  propose-Frozen c tx = search frozen_rules depth 12

  add_peer-Frozen : (id address : String) → Frozen (add_peer id address)
  unfolding add_peer
  add_peer-Frozen id address = search frozen_rules depth 10

module _ ⦃h : Heapless⦄ ⦃j : Json⦄ ⦃v : Values⦄ ⦃t : Texts⦄ where
  frame-after_propose :
      (on_error : Error → IpcMessage) (on_reply : Received → IpcResponse) (tx : ℕ)
      (later : Received) (x : Result (Unit {0}) × RaftNode)
      → frame (after_propose on_error on_reply tx later x).1 ≡ frame x.1
  frame-after_propose on_error on_reply tx later (ok u, n) = refl
  frame-after_propose on_error on_reply tx later (err e, n) = refl
  frame-after_propose on_error on_reply tx later (blocked, n) = refl

  process_request-Frozen :
      (tx : ℕ) (later : Received) (now : ℕ) (req : IpcRequest)
      → Frozen (process_request tx later now req)
  unfolding process_request Client.get_value
  process_request-Frozen tx later now (join node_id address) =
      search (frozen_rules, add_peer-Frozen)
  process_request-Frozen tx later now (leave node_id) = search frozen_rules
  process_request-Frozen tx later now status = search frozen_rules
  process_request-Frozen tx later now (propose_request key value) = record {
    at = λ n held.
        frame-after_propose propose_failed propose_answer tx later
          (propose (command_of key value) tx n)
        ∙ (propose-Frozen (command_of key value) tx).at n held;
  }
  process_request-Frozen tx later now (get_request key) = search frozen_rules
  process_request-Frozen tx later now (send_request text) = record {
    at = λ n held.
        frame-after_propose send_failed send_answer tx later
          (propose (message_command n.node_id now text) tx n)
        ∙ (propose-Frozen (message_command n.node_id now text) tx).at n held;
  }
  process_request-Frozen tx later now (messages_request limit since_index) = search frozen_rules

module _ ⦃h : Heapless⦄ ⦃j : Json⦄ ⦃v : Values⦄ ⦃t : Texts⦄ ⦃r : Rng⦄ (config : Config) where
  call-frozen : (c : Call) (n : RaftNode) → n.log_held ≡ true → frame (call config c n) ≡ frame n
  unfolding election_round
  call-frozen (message envelope) n held = (handle_message-Frozen envelope).at n held
  call-frozen (election_timer draw now) n held =
      (after_draw-Frozen (election_timeout config draw) now).at n held
  call-frozen (heartbeat_timer now) n held = (heartbeat_round-Frozen now).at n held
  call-frozen (request tx later now req) n held =
      (process_request-Frozen tx later now req).at n held

  call_each-frozen :
      (cs : List Call) (n : RaftNode) → n.log_held ≡ true → frame (call_each config cs n) ≡ frame n
  unfolding call_each
  call_each-frozen [] n held = refl
  call_each-frozen (c ∷ cs) n held =
      let same = call-frozen c n held in
      call_each-frozen cs (call config c n) (held_after n (call config c n) same held) ∙ same

  -- One AppendEntries of an older term, with the log's mutex free, ends a node's part in the
  -- cluster until it is started again: whatever messages, timer rounds and requests come then, in any
  -- order, it sends no message, and its log, term and vote, role, indices and store stay as they are.
  pub stale_append-freezes :
      (from : String) (req : AppendEntriesRequest) (calls : List Call) (n : RaftNode)
      → n.log_held ≡ false
      → req.term < current_term n.log
      → let n' = call_each config calls (handle_append_entries from req n).1 in
        (n'.outgoing ≡ n.outgoing)
        × (n'.log ≡ n.log)
        × (n'.role ≡ n.role)
        × (n'.commit_index ≡ n.commit_index)
        × (n'.last_applied ≡ n.last_applied)
        × (n'.state_machine ≡ n.state_machine)
  stale_append-freezes from req calls n free stale =
      let stuck : RaftNode = record n { log_held = true } in
      let frozen = call_each-frozen calls stuck refl in
      rw (stale_append-blocks from req n free stale) (
        ap (λ f. f.outgoing) frozen,
        ap (λ f. f.log) frozen,
        ap (λ f. f.role) frozen,
        ap (λ f. f.commit_index) frozen,
        ap (λ f. f.last_applied) frozen,
        ap (λ f. f.state_machine) frozen,
      )
