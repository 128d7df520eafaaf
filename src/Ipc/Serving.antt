-- ===== src/Ipc/Serving.antt =====
-- What one line of a connection leads to.
use raft_ebpf.Prelude.{
  String, ◌+++◌, Bool, true, false, Option, none, some, List, [], ◌∷◌, ◌++◌, io, json, Result, ok,
  err, blocked, continue, Option-cases, Bool-cases, inl, inr, ◌≡◌, refl,
}
use raft_ebpf.Common.{Heapless}
use raft_ebpf.StateMachine.Messages.{Values}
use raft_ebpf.RaftLog.Format.{Json}
use raft_ebpf.Node.State.{RaftNode}
use raft_ebpf.Ipc.Requests.{
  Texts, IpcRequest, IpcResponse, invalid_request, refused, process_request,
}
use raft_ebpf.Ipc.Connection.{
  IpcWire, Turn, line, failed, Session, answer_to, write_answer, serve_line,
}

module _ ⦃v : Values⦄ ⦃h : Heapless⦄ ⦃j : Json⦄ ⦃t : Texts⦄ ⦃w : IpcWire⦄ where
  -- the line that a response is sent as, or the error of sending it
  abbrev pub line_of : Option String → Bool → Result String
  line_of none writes = err json
  line_of (some s) true = ok (s +++ "\n")
  line_of (some s) false = err io

  abbrev pub sent_as : Bool → Result IpcResponse → Result String
  sent_as writes (ok response) = line_of (w.to_string response) writes
  sent_as writes (err e) = err e
  sent_as writes blocked = blocked

  abbrev pub emit : Result String → RaftNode → List String → Result (Unit {0}) × Session
  emit (ok s) n lines = (ok tt, record { node = n; written = lines ++ s ∷ [] })
  emit (err e) n lines = (err e, record { node = n; written = lines })
  emit blocked n lines = (blocked, record { node = n; written = lines })

  write_answer_lem :
      (writes : Bool) (response : IpcResponse) (s : Session)
      → write_answer writes response s
        ≡ emit (line_of (w.to_string response) writes) s.node s.written
  unfolding write_answer
  write_answer_lem writes response s = elim (Option-cases (w.to_string response)) [
    | inl none_written ↦ rw none_written refl
    | inr (text, at) ↦ elim (Bool-cases writes) [
      | inl can ↦ rw (at, can) refl
      | inr cannot ↦ rw (at, cannot) refl
    ]
  ]

  finish_lem :
      (writes : Bool) (r : Result IpcResponse) (s : Session)
      → continue r (write_answer writes) s ≡ emit (sent_as writes r) s.node s.written
  finish_lem writes (ok response) s = write_answer_lem writes response s
  finish_lem writes (err e) s = refl
  finish_lem writes blocked s = refl

  -- a request is served from the node alone
  pub serve_request_lem :
      (turn : Turn) (text : String) (request : IpcRequest) (s : Session)
      → w.from_str text ≡ some request
      → let (r, n) = process_request turn.tx turn.later turn.now request s.node in
        serve_line turn (line text) s ≡ emit (sent_as turn.writes r) n s.written
  unfolding serve_line answer_to
  serve_request_lem turn text request s read =
      let (r, n) = process_request turn.tx turn.later turn.now request s.node in
      rw read (finish_lem turn.writes r (record s { node = n }))

  pub serve_failed_lem : (turn : Turn) (s : Session) → serve_line turn failed s ≡ (err io, s)
  unfolding serve_line
  serve_failed_lem turn s = refl

  pub serve_invalid_lem :
      (turn : Turn) (text : String) (s : Session)
      → w.from_str text ≡ none
      → serve_line turn (line text) s
        ≡ emit (line_of (w.to_string (refused invalid_request none)) turn.writes) s.node s.written
  unfolding serve_line answer_to
  serve_invalid_lem turn text s unread =
      rw unread (write_answer_lem turn.writes (refused invalid_request none) s)
