-- ===== src/Ipc/Connection.antt =====
-- `handle_ipc_connection` of raft/src/ipc.rs: a connection of the command line tool, line by line.
use raft_ebpf.Prelude.{
  ℕ, String, ◌+++◌, Bool, Option, none, some, List, [], ◌∷◌, ◌++◌, io, json, Exec, pure, throw,
  or_throw, modify, ◌>>=◌, ◌>>◌, if◌then◌else◌,
}
use raft_ebpf.Common.{Heapless}
use raft_ebpf.StateMachine.Messages.{Values}
use raft_ebpf.RaftLog.Format.{Json}
use raft_ebpf.Node.State.{RaftNode}
use raft_ebpf.Ipc.Requests.{
  Texts, Received, IpcRequest, IpcResponse, invalid_request, refused, process_request,
}

-- serde_json on requests and responses
pub record IpcWire ⦃v : Values⦄ : Type 0 where
  pub from_str : String → Option IpcRequest
  pub to_string : IpcResponse → Option String

-- What `read_line` gives: a line, or an error; the end of the stream is the end of the list.
pub data LineRead : Type 0 where
  line : String → LineRead
  failed : LineRead

-- one round of the loop, with what the request needs and whether the answer can be written
pub record Turn : Type 0 where
  pub read : LineRead
  pub tx : ℕ
  pub later : Received
  pub now : ℕ
  pub writes : Bool

pub record Session : Type 0 where
  pub node : RaftNode
  -- the lines that were written to the client, the oldest first
  pub written : List String

module _ ⦃v : Values⦄ ⦃h : Heapless⦄ ⦃j : Json⦄ ⦃t : Texts⦄ ⦃w : IpcWire⦄ where
  abbrev on_node : Exec RaftNode IpcResponse → Exec Session IpcResponse
  on_node m s = let (r, n) = m s.node in (r, record s { node = n })

  -- the match on what the line says
  unfoldable pub answer_to : Turn → Option IpcRequest → Exec Session IpcResponse
  unfolding process_request
  answer_to turn none = pure (refused invalid_request none)
  answer_to turn (some request) = on_node (process_request turn.tx turn.later turn.now request)

  unfoldable pub write_answer : Bool → IpcResponse → Exec Session (Unit {0})
  write_answer writes response = do
    resp_str ← or_throw (w.to_string response) json
    if writes
        then modify (λ s. record s { written = s.written ++ (resp_str +++ "\n") ∷ [] })
        else throw io

  unfoldable pub serve_line : Turn → LineRead → Exec Session (Unit {0})
  unfolding answer_to write_answer
  serve_line turn failed = throw io
  serve_line turn (line text) = do
    response ← answer_to turn (w.from_str text)
    write_answer turn.writes response

  unfoldable pub handle_ipc_connection : List Turn → Exec Session (Unit {0})
  unfolding serve_line
  handle_ipc_connection [] = pure tt
  handle_ipc_connection (turn ∷ turns) = do serve_line turn turn.read; handle_ipc_connection turns
