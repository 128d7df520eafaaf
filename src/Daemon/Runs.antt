-- ===== src/Daemon/Runs.antt =====
-- A run of a daemon: its tasks take turns, one call after the other, and it may stop and start
-- again over its files between two calls.
use mathlib.Core.Path.{subst}
use raft_ebpf.Prelude.{
  String, Option, none, some, sym, ◌∙◌, ℕ, ◌+◌, ◌<◌, Result, ok, err, blocked, ◌≡◌, u64_mod,
}
use raft_ebpf.Common.{
  Heapless, RaftMessage, MessageEnvelope, append_entries, append_entries_response, request_vote,
  request_vote_response, client_request, client_response,
}
use raft_ebpf.StateMachine.Messages.{Values}
use raft_ebpf.RaftLog.{current_term}
use raft_ebpf.RaftLog.Format.{Json}
use raft_ebpf.Node.State.{RaftNode, Handler, warn_error, warned}
use raft_ebpf.Node.Dispatch.{dispatch, handle_message}
use raft_ebpf.Ipc.Requests.{Texts, IpcRequest, Received, process_request}
use raft_ebpf.Daemon.Config.{Config}
use raft_ebpf.Daemon.Start.{Rng, election_timeout, new_node}
use raft_ebpf.Daemon.Timers.{after_draw, election_round, heartbeat_round}
use raft_ebpf.Daemon.Sound.{Sound}
use raft_ebpf.Daemon.Safe.{Safe, safe_rules}
use raft_ebpf.Daemon.Storing.{IsTrusted, handle_append_entries-Sound}
use raft_ebpf.Daemon.Handlers.{
  handle_request_vote-Safe, handle_request_vote_response-Safe, start_election-Safe,
  send_heartbeats-Safe,
}
use raft_ebpf.Daemon.Committing.{handle_append_entries_response-Safe}
use raft_ebpf.Daemon.Requests.{process_request-Sound}
use raft_ebpf.Daemon.Restart.{new_node-restores}

pub ok-inj : (n m : RaftNode) → ok n ≡ ok m → n ≡ m
ok-inj n m e = cc

-- An AppendEntries is one that a correct leader makes for this follower; other messages are any.
abbrev pub IsTrustedMessage : RaftMessage → RaftNode → Type 0
IsTrustedMessage (append_entries req) n = IsTrusted req n.log n.commit_index
IsTrustedMessage _ n = Unit

module _ ⦃h : Heapless⦄ ⦃j : Json⦄ ⦃v : Values⦄ ⦃t : Texts⦄ ⦃r : Rng⦄ (config : Config) where
  pub data Step : RaftNode → RaftNode → Type 0 where
    arrive :
        (n : RaftNode) (envelope : MessageEnvelope)
        → IsTrustedMessage envelope.message n
        → Step n (handle_message envelope n).1
    election_timer :
        (n : RaftNode) (draw now : ℕ)
        → current_term n.log + 1 < u64_mod
        → Step n (election_round config draw now n).1
    heartbeat_timer : (n : RaftNode) (now : ℕ) → Step n (heartbeat_round now n).1
    request :
        (n : RaftNode) (tx : ℕ) (later : Received) (now : ℕ) (req : IpcRequest)
        → n.log.last_index + 1 < u64_mod
        → Step n (process_request tx later now req n).1
    restart : (n n' : RaftNode) (now : ℕ) → new_node config now n.log.disk ≡ ok n' → Step n n'

  pub data Reach (s : RaftNode) : RaftNode → Type 0 where
    here : Reach s s
    next : {n m : RaftNode} → Reach s n → Step n m → Reach s m

module _ ⦃h : Heapless⦄ ⦃j : Json⦄ where
  dispatch-Sound :
      (from : String) (message : RaftMessage) (n : RaftNode)
      → IsTrustedMessage message n
      → Sound n
      → Sound (dispatch from message n).1
  dispatch-Sound from (append_entries req) n t s = handle_append_entries-Sound from req n s t
  dispatch-Sound from (append_entries_response resp) n t s =
      (handle_append_entries_response-Safe from resp).at n s
  dispatch-Sound from (request_vote req) n t s = (handle_request_vote-Safe from req).at n s
  dispatch-Sound from (request_vote_response resp) n t s =
      (handle_request_vote_response-Safe from resp).at n s
  dispatch-Sound from (client_request _) n t s = s
  dispatch-Sound from (client_response _) n t s = s

  handle_message-Sound :
      (envelope : MessageEnvelope) (n : RaftNode)
      → IsTrustedMessage envelope.message n
      → Sound n
      → Sound (handle_message envelope n).1
  unfolding handle_message
  handle_message-Sound envelope n t s = dispatch-Sound envelope.from envelope.message n t s

  warn_error-Sound : (x : Result (Unit {0}) × RaftNode) → Sound x.1 → Sound (warn_error x).1
  warn_error-Sound (ok u, n) s = s
  warn_error-Sound (err e, n) s = s
  warn_error-Sound (blocked, n) s = s

  warned-Safe : (call : Handler (Unit {0})) → Safe call → Safe (warned call)
  warned-Safe call k = record { at = λ n s. warn_error-Sound (call n) (k.at n s) }

  after_draw-Safe : (o : Option ℕ) (now : ℕ) → Safe (after_draw o now)
  unfolding after_draw
  after_draw-Safe none now = record { at = λ n s. s }
  after_draw-Safe (some timeout) now =
      search (safe_rules, warned-Safe, start_election-Safe) depth 10

  heartbeat_round-Safe : (now : ℕ) → Safe (heartbeat_round now)
  unfolding heartbeat_round
  heartbeat_round-Safe now = search (safe_rules, warned-Safe, send_heartbeats-Safe) depth 10

module _ ⦃h : Heapless⦄ ⦃j : Json⦄ ⦃v : Values⦄ ⦃t : Texts⦄ ⦃r : Rng⦄ (config : Config) where
  election_round-Safe : (draw now : ℕ) → Safe (election_round config draw now)
  unfolding election_round
  election_round-Safe draw now = after_draw-Safe (election_timeout config draw) now

  restart-Sound :
      (n n' : RaftNode) (now : ℕ) → new_node config now n.log.disk ≡ ok n' → Sound n → Sound n'
  restart-Sound n n' now e s =
      let (again, e', s', role, commit, kept, last, same) = new_node-restores config now n s in
      subst Sound (ok-inj again n' (sym e' ∙ e)) s'

  pub Step-Sound : {n m : RaftNode} → Step config n m → Sound n → Sound m
  Step-Sound (arrive n envelope trusted) s = handle_message-Sound envelope n trusted s
  Step-Sound (election_timer n draw now room) s = (election_round-Safe draw now).at n s
  Step-Sound (heartbeat_timer n now) s = (heartbeat_round-Safe now).at n s
  Step-Sound (request n tx later now req room) s = process_request-Sound tx later now req n room s
  Step-Sound (restart n m now e) s = restart-Sound n m now e s

  -- Over any run of a daemon that starts sound, at each moment between two calls: memory and files
  -- are in step, the log has no gap, the applied index is at most the commit index and this at most
  -- the last index, and the store holds exactly what the entries of the log up to the applied index
  -- make of an empty one. A run is any sequence of messages, timer rounds, requests of clients and
  -- restarts; an AppendEntries in it is consecutive, within the capacities and the same as the log
  -- at committed indices; the disk does not fail and the indices stay below 2^64 - 1.
  pub Reach-Sound : {s n : RaftNode} → Sound s → Reach config s n → Sound n
  Reach-Sound sound here = sound
  Reach-Sound sound (next run step) = Step-Sound step (Reach-Sound sound run)
