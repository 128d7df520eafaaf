-- ===== src/Cli/Joined.antt =====
-- The tool and the daemon at the two ends of the socket.
use raft_ebpf.Prelude.{
  ℕ, String, ◌+++◌, text_eq, ◌==◌, true, Option, none, some, List, [], ◌∷◌, Result, ok, err,
  blocked, ◌≡◌, refl, ap, ◌∙◌,
}
use raft_ebpf.Common.{Heapless}
use raft_ebpf.StateMachine.Messages.{Values}
use raft_ebpf.RaftLog.Format.{Json}
use raft_ebpf.Node.State.{RaftNode}
use raft_ebpf.Ipc.Requests.{
  Texts, Received, IpcRequest, join, leave, status, propose_request, get_request, send_request,
  messages_request, process_request,
}
use raft_ebpf.Ipc.Connection.{IpcWire, Turn, line, Session, serve_line}
use raft_ebpf.Ipc.Serving.{emit, sent_as, serve_request_lem}
use raft_ebpf.Cli.Client.{
  CliRequest, ask_join, ask_leave, ask_status, ask_propose, ask_get, ask_send, ask_messages, Socket,
  Terminal,
}

-- The daemon as the tool reaches it: a connection, and what the next request needs.
pub record Daemon : Type 0 where
  pub session : Session
  pub tx : ℕ
  pub later : Received
  pub now : ℕ

-- the request of the daemon that a request of the tool is to be read as
abbrev pub same_request : CliRequest → IpcRequest
same_request (ask_join node_id address) = join node_id address
same_request (ask_leave node_id) = leave node_id
same_request ask_status = status
same_request (ask_propose key value) = propose_request key value
same_request (ask_get key) = get_request key
same_request (ask_send message) = send_request message
same_request (ask_messages limit since_index) = messages_request limit since_index

abbrev last_line : List String → Option String
last_line [] = none
last_line (x ∷ []) = some x
last_line (x ∷ y ∷ rest) = last_line (y ∷ rest)

module _ ⦃v : Values⦄ ⦃h : Heapless⦄ ⦃j : Json⦄ ⦃t : Texts⦄ ⦃w : IpcWire⦄ where
  abbrev turn_of : Daemon → String → Turn
  turn_of d text = record {
    read = line text;
    tx = d.tx;
    later = d.later;
    now = d.now;
    writes = true;
  }

  abbrev answer_of : Result (Unit {0}) × Session → Option String
  answer_of (ok u, s) = last_line s.written
  answer_of (err e, s) = none
  answer_of (blocked, s) = none

  -- A socket that joins the two: it is found under the path of the daemon's name, and a line that is
  -- written is served, and the line that the daemon writes is read.
  unfoldable pub serve_text : String → Daemon → Option String × Daemon
  unfolding serve_line
  serve_text text d =
      let x = serve_line (turn_of d text) (line text) d.session in
      (answer_of x, record d { session = x.1 })

  instance abbrev pub joined : Socket Daemon
  joined = record {
    connect = λ path d. (path == ("/tmp/raft-" +++ d.session.node.node_id +++ ".sock"), d);
    exchange = serve_text;
  }

abbrev pub node_of : Terminal Daemon → RaftNode
node_of c = c.world.session.node

module _ ⦃v : Values⦄ ⦃h : Heapless⦄ ⦃j : Json⦄ ⦃t : Texts⦄ ⦃w : IpcWire⦄ where
  node-emit : (o : Result String) (n : RaftNode) (lines : List String) → (emit o n lines).1.node ≡ n
  node-emit (ok s) n lines = refl
  node-emit (err e) n lines = refl
  node-emit blocked n lines = refl

  pub node-serve_text :
      (text : String) (d : Daemon) (request : IpcRequest)
      → w.from_str text ≡ some request
      → (serve_text text d).1.session.node
        ≡ (process_request d.tx d.later d.now request d.session.node).1
  unfolding serve_text
  node-serve_text text d request read =
      let (r, n) = process_request d.tx d.later d.now request d.session.node in
      ap (λ x. x.1.node) (serve_request_lem (turn_of d text) text request d.session read)
      ∙ node-emit (sent_as true r) n d.session.written
