-- ===== src/Cli/Reaching.antt =====
-- What the commands do to the daemon.
use raft_ebpf.Prelude.{
  some-inj, ◌>>◌, ℕ, String, ◌+++◌, text_eq, ◌==◌, true, Option, none, some, List, [], ◌∷◌, io, ok,
  bind_ok, or_throw, ◌>>=◌, eq_iff, ◌≡◌, refl, ap, ◌∙◌,
}
use raft_ebpf.Prelude.Keeps.{Keeps, Keeps-modify, keeps_rules, view-bind}
use raft_ebpf.Common.{Heapless}
use raft_ebpf.StateMachine.Messages.{Values}
use raft_ebpf.RaftLog.Format.{Json}
use raft_ebpf.Ipc.Requests.{Texts, process_request}
use raft_ebpf.Ipc.Connection.{IpcWire}
use raft_ebpf.Cli.Client.{
  CliResponse, CliRequest, ask_join, ask_leave, ask_status, ask_send, ask_messages, JsonValue,
  CliWire, Terminal, Console, connect, exchange, parse_answer, send_request as cli_send_request,
}
use raft_ebpf.Cli.Commands.{
  if_some, show_value, operation_request, or_bail, show_done, show_hint, propose,
}
use raft_ebpf.Cli.Joined.{Daemon, same_request, joined, node_of, node-serve_text}
use raft_ebpf.Cli.Commands.{show_status, show_leader, join, leave, status, send}
use raft_ebpf.Cli.Messages.{print_each, show_messages, messages}
use raft_ebpf.Cli.Main.{
  Commands, run_join, run_leave, run_status, run_propose, run_send, run_messages, run_watch,
  request_for_command, run_cli,
}

module _ {A : Type 0} where
  if_some-Keeps :
      (o : Option A) (f : A → Console Daemon (Unit {0}))
      → ((a : A) → Keeps node_of (f a))
      → Keeps node_of (if_some o f)
  if_some-Keeps none f k = search keeps_rules
  if_some-Keeps (some a) f k = k a

module _ ⦃v : Values⦄ ⦃h : Heapless⦄ ⦃j : Json⦄ ⦃t : Texts⦄ ⦃w : IpcWire⦄ where
  module _ ⦃y : JsonValue⦄ ⦃x : CliWire⦄ where
    parse_answer-Keeps : (text : String) → Keeps node_of (parse_answer text)
    parse_answer-Keeps text = search keeps_rules

    show_hint-Keeps : (hint : String) (o : Option y.Value) → Keeps node_of (show_hint hint o)
    show_hint-Keeps hint o = search (keeps_rules, Keeps-modify, if_some-Keeps) depth 10

    show_value-Keeps : (key : String) (value : y.Value) → Keeps node_of (show_value key value)
    show_value-Keeps key value = search (keeps_rules, Keeps-modify, if_some-Keeps) depth 10

    show_done-Keeps :
        (operation key : String) (value : Option String) (o : Option y.Value)
        → Keeps node_of (show_done operation key value o)
    unfolding show_done
    show_done-Keeps operation key value o =
        search (keeps_rules, Keeps-modify, if_some-Keeps, show_value-Keeps) depth 12

    node-send_request :
        (request : CliRequest) (text : String) (c : Terminal Daemon)
        → x.to_string request ≡ some text
        → w.from_str (text +++ "\n") ≡ some (same_request request)
        → node_of (cli_send_request request c).1
          ≡ (process_request c.world.tx c.world.later c.world.now
              (same_request request)
              (node_of c)).1
    unfolding cli_send_request
    node-send_request request text c written read = rw written (
        view-bind {view = node_of} (exchange (text +++ "\n"))
          (λ line. or_throw line io >>= parse_answer) c (search (keeps_rules, parse_answer-Keeps))
        ∙ node-serve_text (text +++ "\n") c.world (same_request request) read)

    connect_lem : (c : Terminal Daemon) → connect (node_of c).node_id c ≡ (ok tt, c)
    unfolding connect
    connect_lem c =
        let path = "/tmp/raft-" +++ (node_of c).node_id +++ ".sock" in
        let found : (path == path) ≡ true = (eq_iff path path).1 refl in rw found refl

    bail_lem :
        (o : Option CliRequest) (request : CliRequest) (c : Terminal Daemon)
        → o ≡ some request
        → or_bail o c ≡ (ok request, c)
    bail_lem o request c accepted = rw accepted refl

    show_leader-Keeps : (leader : y.Value) → Keeps node_of (show_leader leader)
    show_leader-Keeps leader = search (keeps_rules, Keeps-modify, if_some-Keeps)

    show_status-Keeps : (d : y.Value) → Keeps node_of (show_status d)
    unfolding show_status
    show_status-Keeps d =
        search (keeps_rules, Keeps-modify, if_some-Keeps, show_leader-Keeps) depth 30 fits 20000

    print_each-Keeps : (msgs : List y.Value) → Keeps node_of (print_each msgs)
    unfolding print_each
    print_each-Keeps [] = search keeps_rules
    print_each-Keeps (msg ∷ rest) =
        let more = print_each-Keeps rest in record { at = λ c. more.at _ }

    show_messages-Keeps : (msgs : List y.Value) → Keeps node_of (show_messages msgs)
    unfolding print_each
    show_messages-Keeps [] = search (keeps_rules, Keeps-modify)
    show_messages-Keeps (msg ∷ rest) = print_each-Keeps (msg ∷ rest)

    -- the daemon's node once a request has been sent to it, whatever then comes of the answer
    send-reaches :
        (sent request : CliRequest) (text : String) (k : CliResponse → Console Daemon (Unit {0}))
        (c : Terminal Daemon)
        → some sent ≡ some request
        → ((response : CliResponse) → Keeps node_of (k response))
        → x.to_string request ≡ some text
        → w.from_str (text +++ "\n") ≡ some (same_request request)
        → node_of ((connect (node_of c).node_id >> (cli_send_request sent >>= k)) c).1
          ≡ (process_request c.world.tx c.world.later c.world.now
              (same_request request)
              (node_of c)).1
    send-reaches sent request text k c same quiet written read =
        let is : sent ≡ request = some-inj sent request same in
        ap (λ r. node_of r.1) (bind_ok (connect (node_of c).node_id) _ (connect_lem c))
        ∙ view-bind {view = node_of} (cli_send_request sent) k c quiet
        ∙ ap (λ q. node_of (cli_send_request q c).1) is
        ∙ node-send_request request text c written read

    propose-reaches :
        (operation key : String) (value : Option String) (request : CliRequest) (text : String)
        (c : Terminal Daemon)
        → operation_request operation key value ≡ some request
        → x.to_string request ≡ some text
        → w.from_str (text +++ "\n") ≡ some (same_request request)
        → node_of (propose (node_of c).node_id operation key value c).1
          ≡ (process_request c.world.tx c.world.later c.world.now
              (same_request request)
              (node_of c)).1
    unfolding propose
    propose-reaches operation key value request text c accepted written read =
        ap (λ r. node_of r.1)
          (bind_ok (connect (node_of c).node_id) _ (connect_lem c)
            ∙ bind_ok (or_bail (operation_request operation key value)) _
                (bail_lem (operation_request operation key value) request c accepted))
        ∙ view-bind {view = node_of} (cli_send_request request) _ c
            (λ response. search (keeps_rules, Keeps-modify, show_done-Keeps, show_hint-Keeps))
        ∙ node-send_request request text c written read

    -- A command of the tool that sends one request, to the daemon of that name, where the daemon
    -- reads the line of the request as the same request: the daemon's node ends as its handling of
    -- the request leaves it, whatever the tool then makes of the answer.
    pub run_cli-reaches :
        (rounds : ℕ) (command : Commands) (request : CliRequest) (text : String)
        (c : Terminal Daemon)
        → request_for_command command ≡ some request
        → x.to_string request ≡ some text
        → w.from_str (text +++ "\n") ≡ some (same_request request)
        → node_of (run_cli rounds (node_of c).node_id command c).1
          ≡ (process_request c.world.tx c.world.later c.world.now
              (same_request request)
              (node_of c)).1
    unfolding run_cli join leave status send messages
    run_cli-reaches rounds (run_join node_id address) request text c sends written read =
        send-reaches (ask_join node_id address) request text _ c sends
          (λ response. search (keeps_rules, Keeps-modify)) written read
    run_cli-reaches rounds (run_leave node_id) request text c sends written read =
        send-reaches (ask_leave node_id) request text _ c sends
          (λ response. search (keeps_rules, Keeps-modify)) written read
    run_cli-reaches rounds run_status request text c sends written read =
        send-reaches ask_status request text _ c sends
          (λ response. search (keeps_rules, Keeps-modify, if_some-Keeps, show_status-Keeps)) written
          read
    run_cli-reaches rounds (run_propose operation key value) request text c sends written read =
        propose-reaches operation key value request text c sends written read
    run_cli-reaches rounds (run_send message) request text c sends written read =
        send-reaches (ask_send message) request text _ c sends
          (λ response. search (keeps_rules, Keeps-modify, if_some-Keeps, show_hint-Keeps) depth 10)
          written read
    run_cli-reaches rounds (run_messages limit) request text c sends written read =
        send-reaches (ask_messages (some limit) none) request text _ c sends
          (λ response.
            search (keeps_rules, Keeps-modify, if_some-Keeps, show_messages-Keeps) depth 14)
          written read
    run_cli-reaches rounds (run_watch interval) request text c sends written read = absurd cc
