-- ===== src/Daemon/Votes.antt =====
-- The term and the vote of a daemon over a run.
use mathlib.Core.Path.{subst}
use raft_ebpf.Prelude.{
  ℕ, ◌+◌, ◌<◌, String, text_eq, Bool, true, false, Option, none, some, Error, Result, ok, err,
  blocked, ◌≡◌, refl, sym, ap, ◌∙◌, u64_mod, leb, ◌&&◌, ◌||◌, pure, if◌then◌else◌, arith,
}
use raft_ebpf.Prelude.Keeps.{Keeps, Keeps-pure, Keeps-if}
use raft_ebpf.Common.{Heapless, Command, PersistentState, same_role, follower, candidate}
use raft_ebpf.StateMachine.Messages.{Values}
use raft_ebpf.RaftLog.{current_term}
use raft_ebpf.RaftLog.Persistent.{append-Keeps}
use raft_ebpf.RaftLog.Format.{Json}
use raft_ebpf.Node.State.{RaftNode, Handler, warn_error, warned, with_log}
use raft_ebpf.Node.Quiet.{saved, node_rules, become_leader-Keeps, send_heartbeats-Keeps}
use raft_ebpf.Node.Advance.{
  Advances, Advances-refl, Advances-trans, Advances-same, with_log-Advances, quiet-Advances,
  bind-Advances,
}
use raft_ebpf.Node.Terms.{handle_message-Advances}
use raft_ebpf.Node.Elect.{stand_for_election, become_leader, start_election}
use raft_ebpf.Node.Stand.{standing, stand_for_election_lem}
use raft_ebpf.Node.Client
use raft_ebpf.Node.Client.{propose, add_peer, remove_peer, get_status}
use raft_ebpf.Ipc.Requests.{
  Texts, IpcRequest, join, leave, status, propose_request, get_request, send_request,
  messages_request, IpcMessage, IpcResponse, Received, propose_failed, propose_answer, send_failed,
  send_answer, after_propose, command_of, message_command, process_request,
}
use raft_ebpf.Daemon.Config.{Config}
use raft_ebpf.Daemon.Start.{Rng, election_timeout, time_since_heartbeat, new_node}
use raft_ebpf.Daemon.Timers.{after_draw, election_round, heartbeat_round}
use raft_ebpf.Daemon.Sound.{Sound}
use raft_ebpf.Daemon.Restart.{new_node-restores}
use raft_ebpf.Daemon.Runs.{
  ok-inj, Step, arrive, election_timer, heartbeat_timer, request, restart, Reach, here, next,
  Reach-Sound,
}

Advances-higher : (p q : PersistentState) → p.current_term < q.current_term → Advances p q
Advances-higher p q higher = record {
  term = omega arith;
  vote = λ e v voted fits. absurd (omega arith);
}

saved-warn_error : (x : Result (Unit {0}) × RaftNode) → saved (warn_error x).1 ≡ saved x.1
saved-warn_error (ok u, n) = refl
saved-warn_error (err e, n) = refl
saved-warn_error (blocked, n) = refl

warned-Keeps : (call : Handler (Unit {0})) → Keeps saved call → Keeps saved (warned call)
warned-Keeps call k = record { at = λ n. saved-warn_error (call n) ∙ k.at n }

if-Advances :
    (b : Bool) (m k : Handler (Unit {0})) (n : RaftNode)
    → Advances (saved n) (saved (m n).1)
    → Advances (saved n) (saved (k n).1)
    → Advances (saved n) (saved ((if b then m else k) n).1)
if-Advances true m k n am ak = am
if-Advances false m k n am ak = ak

module _ ⦃h : Heapless⦄ ⦃j : Json⦄ where
  start_election-Advances :
      (n : RaftNode)
      → current_term n.log + 1 < u64_mod
      → Sound n
      → Advances (saved n) (saved (start_election n).1)
  unfolding start_election
  start_election-Advances n room s =
      let held : RaftNode = record n { log_held = true } in
      bind-Advances (with_log stand_for_election)
        (λ alone. if alone then become_leader else pure tt) n
        (with_log-Advances stand_for_election n (
          rw (stand_for_election_lem held room s.durable.healthy)
            (Advances-higher (saved n) (saved (standing held)) (omega arith))))
        (λ alone t e same.
          quiet-Advances (if alone then become_leader else pure tt) t
            (Keeps-if alone become_leader (pure tt) become_leader-Keeps (Keeps-pure tt)))

  after_draw-Advances :
      (o : Option ℕ) (now : ℕ) (n : RaftNode)
      → current_term n.log + 1 < u64_mod
      → Sound n
      → Advances (saved n) (saved (after_draw o now n).1)
  unfolding after_draw
  after_draw-Advances none now n room s = Advances-refl (saved n)
  after_draw-Advances (some timeout) now n room s =
      let m : RaftNode = record n { clock = now } in
      if-Advances
        ((same_role m.role follower || same_role m.role candidate)
          && leb timeout (time_since_heartbeat m))
        (warned start_election) (pure tt) m
        (subst (Advances (saved n)) (sym (saved-warn_error (start_election m)))
          (start_election-Advances m room s))
        (Advances-refl (saved n))

  heartbeat_round-Keeps : (now : ℕ) → Keeps saved (heartbeat_round now)
  unfolding heartbeat_round
  heartbeat_round-Keeps now = search (node_rules, warned-Keeps, send_heartbeats-Keeps) depth 10

  propose-Keeps : (c : Command) (tx : ℕ) → Keeps saved (propose c tx)
  unfolding propose
  propose-Keeps c tx = search (node_rules, append-Keeps, send_heartbeats-Keeps) depth 14

  add_peer-Keeps : (id address : String) → Keeps saved (add_peer id address)
  unfolding add_peer
  add_peer-Keeps id address = search node_rules depth 10

  remove_peer-Keeps : (id : String) → Keeps saved (remove_peer id)
  unfolding remove_peer
  remove_peer-Keeps id = search node_rules

  get_status-Keeps : Keeps saved get_status
  unfolding get_status
  get_status-Keeps = search node_rules

module _ ⦃h : Heapless⦄ ⦃j : Json⦄ ⦃v : Values⦄ ⦃t : Texts⦄ where
  saved-after_propose :
      (on_error : Error → IpcMessage) (on_reply : Received → IpcResponse) (tx : ℕ)
      (later : Received) (x : Result (Unit {0}) × RaftNode)
      → saved (after_propose on_error on_reply tx later x).1 ≡ saved x.1
  saved-after_propose on_error on_reply tx later (ok u, n) = refl
  saved-after_propose on_error on_reply tx later (err e, n) = refl
  saved-after_propose on_error on_reply tx later (blocked, n) = refl

  process_request-Keeps :
      (tx : ℕ) (later : Received) (now : ℕ) (req : IpcRequest)
      → Keeps saved (process_request tx later now req)
  unfolding process_request Client.get_value
  process_request-Keeps tx later now (join node_id address) = search (node_rules, add_peer-Keeps)
  process_request-Keeps tx later now (leave node_id) = search (node_rules, remove_peer-Keeps)
  process_request-Keeps tx later now status = search (node_rules, get_status-Keeps)
  process_request-Keeps tx later now (propose_request key value) = record {
    at = λ n.
        saved-after_propose propose_failed propose_answer tx later
          (propose (command_of key value) tx n)
        ∙ (propose-Keeps (command_of key value) tx).at n;
  }
  process_request-Keeps tx later now (get_request key) = search node_rules
  process_request-Keeps tx later now (send_request message) = record {
    at = λ n.
        saved-after_propose send_failed send_answer tx later
          (propose (message_command n.node_id now message) tx n)
        ∙ (propose-Keeps (message_command n.node_id now message) tx).at n;
  }
  process_request-Keeps tx later now (messages_request limit since_index) =
      search (node_rules, get_status-Keeps)

module _ ⦃h : Heapless⦄ ⦃j : Json⦄ ⦃v : Values⦄ ⦃t : Texts⦄ ⦃r : Rng⦄ (config : Config) where
  election_round-Advances :
      (draw now : ℕ) (n : RaftNode)
      → current_term n.log + 1 < u64_mod
      → Sound n
      → Advances (saved n) (saved (election_round config draw now n).1)
  unfolding election_round
  election_round-Advances draw now n room s =
      after_draw-Advances (election_timeout config draw) now n room s

  restart-Advances :
      (n n' : RaftNode) (now : ℕ)
      → new_node config now n.log.disk ≡ ok n'
      → Sound n
      → Advances (saved n) (saved n')
  restart-Advances n n' now e s =
      let (again, e', s', role, commit, kept, last, same) = new_node-restores config now n s in
      Advances-same (saved n) (saved n') (ap saved (ok-inj n' again (sym e ∙ e')) ∙ kept)

  Step-Advances : {n m : RaftNode} → Step config n m → Sound n → Advances (saved n) (saved m)
  Step-Advances (arrive n envelope trusted) s = handle_message-Advances envelope n
  Step-Advances (election_timer n draw now room) s = election_round-Advances draw now n room s
  Step-Advances (heartbeat_timer n now) s =
      quiet-Advances (heartbeat_round now) n (heartbeat_round-Keeps now)
  Step-Advances (request n tx later now req room) s =
      quiet-Advances (process_request tx later now req) n (process_request-Keeps tx later now req)
  Step-Advances (restart n m now e) s = restart-Advances n m now e s

  -- Over any run of a daemon that starts sound, restarts included: the term never falls, and while
  -- the term stays the same a vote of at most 64 bytes that the daemon has given stands. So it votes
  -- for one candidate a term, also across a crash between two calls.
  pub Reach-Advances : {s n : RaftNode} → Sound s → Reach config s n → Advances (saved s) (saved n)
  Reach-Advances {s = s} sound here = Advances-refl (saved s)
  Reach-Advances {s = s} sound (next {n = n} {m = m} run step) =
      Advances-trans (saved s) (saved n) (saved m) (Reach-Advances sound run)
        (Step-Advances step (Reach-Sound config sound run))
