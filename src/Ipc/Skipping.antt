-- ===== src/Ipc/Skipping.antt =====
-- A connection answers each line, and lines that are no requests change nothing else.
use raft_ebpf.Prelude.{
  ℕ, suc, ◌+◌, String, Option, none, some, List, [], ◌∷◌, ◌++◌, length, length-append, Result, ok,
  err, blocked, continue, Option-cases, inl, inr, ◌≡◌, refl, ap, ◌∙◌, arith,
}
use raft_ebpf.Common.{Heapless}
use raft_ebpf.StateMachine.Messages.{Values}
use raft_ebpf.RaftLog.Format.{Json}
use raft_ebpf.Node.State.{RaftNode}
use raft_ebpf.Ipc.Requests.{Texts, IpcRequest, invalid_request, refused, process_request}
use raft_ebpf.Ipc.Connection.{
  IpcWire, Turn, LineRead, line, failed, Session, serve_line, handle_ipc_connection,
}
use raft_ebpf.Ipc.Serving.{
  line_of, sent_as, emit, serve_request_lem, serve_failed_lem, serve_invalid_lem,
}

module _ ⦃v : Values⦄ ⦃h : Heapless⦄ ⦃j : Json⦄ ⦃t : Texts⦄ ⦃w : IpcWire⦄ where
  -- the turns whose line is a request, or fails to be read
  abbrev keep_turn : Option IpcRequest → Turn → List Turn → List Turn
  keep_turn none turn rest = rest
  keep_turn (some request) turn rest = turn ∷ rest

  abbrev keep_read : LineRead → Turn → List Turn → List Turn
  keep_read failed turn rest = turn ∷ rest
  keep_read (line text) turn rest = keep_turn (w.from_str text) turn rest

  abbrev pub requests_of : List Turn → List Turn
  requests_of [] = []
  requests_of (turn ∷ turns) = keep_read turn.read turn (requests_of turns)

  -- what two connections have in common that differ in the lines that are no requests
  abbrev Alike :
      Result (Unit {0}) × Session → Result (Unit {0}) × Session → List String → ℕ → Type 0
  Alike x y before count =
      (y.0 ≡ ok tt) × (x.1.node ≡ y.1.node) × (length x.1.written ≡ length before + count)

  -- a connection that goes on after an answer
  abbrev go_on : Result (Unit {0}) × Session → List Turn → Result (Unit {0}) × Session
  go_on (r, s) turns = continue r (λ u. handle_ipc_connection turns) s

  -- what the rest of the connection keeps
  abbrev Skips : List Turn → Type 0
  Skips turns =
      (s u : Session)
      → s.node ≡ u.node
      → (handle_ipc_connection turns s).0 ≡ ok tt
      → Alike (handle_ipc_connection turns s) (handle_ipc_connection (requests_of turns) u)
          s.written (length turns)

  longer :
      (x y : Result (Unit {0}) × Session) (lines : List String) (text : String) (count : ℕ)
      → Alike x y (lines ++ text ∷ []) count
      → Alike x y lines (suc count)
  longer x y lines text count (done, same, counted) =
      (done, same, omega (arith, counted, length-append lines (text ∷ [])))

  request_step :
      (o : Result String) (n : RaftNode) (ls ks : List String) (turns : List Turn)
      → Skips turns
      → (go_on (emit o n ls) turns).0 ≡ ok tt
      → Alike
          (go_on (emit o n ls) turns)
          (go_on (emit o n ks) (requests_of turns))
          ls
          (suc (length turns))
  request_step (ok text) n ls ks turns rest e =
      let s : Session = record { node = n; written = ls ++ text ∷ [] } in
      let u : Session = record { node = n; written = ks ++ text ∷ [] } in
      longer (handle_ipc_connection turns s) (handle_ipc_connection (requests_of turns) u) ls text
        (length turns) (rest s u refl e)
  request_step (err x) n ls ks turns rest e = absurd cc
  request_step blocked n ls ks turns rest e = absurd cc

  invalid_step :
      (o : Result String) (n : RaftNode) (ls : List String) (u : Session) (turns : List Turn)
      → n ≡ u.node
      → Skips turns
      → (go_on (emit o n ls) turns).0 ≡ ok tt
      → Alike
          (go_on (emit o n ls) turns)
          (handle_ipc_connection (requests_of turns) u)
          ls
          (suc (length turns))
  invalid_step (ok text) n ls u turns same rest e =
      let s : Session = record { node = n; written = ls ++ text ∷ [] } in
      longer (handle_ipc_connection turns s) (handle_ipc_connection (requests_of turns) u) ls text
        (length turns) (rest s u same e)
  invalid_step (err x) n ls u turns same rest e = absurd cc
  invalid_step blocked n ls u turns same rest e = absurd cc

  handle_cons :
      (turn : Turn) (turns : List Turn) (s : Session)
      → handle_ipc_connection (turn ∷ turns) s ≡ go_on (serve_line turn turn.read s) turns
  unfolding handle_ipc_connection
  handle_cons turn turns s = refl

  read_step :
      (turn : Turn) (read : LineRead) (turns : List Turn) (s u : Session)
      → turn.read ≡ read
      → s.node ≡ u.node
      → Skips turns
      → (go_on (serve_line turn read s) turns).0 ≡ ok tt
      → Alike
          (go_on (serve_line turn read s) turns)
          (handle_ipc_connection (keep_read read turn (requests_of turns)) u)
          s.written
          (suc (length turns))
  read_step turn failed turns s u is same rest e =
      let lem = serve_failed_lem turn s in absurd (ground (arith, rw lem at e))
  read_step turn (line text) turns s u is same rest e = elim (Option-cases (w.from_str text)) [
    | inl unread ↦
        let lem = serve_invalid_lem turn text s unread in
        rw (unread, lem)
          (invalid_step (line_of (w.to_string (refused invalid_request none)) turn.writes) s.node
            s.written u turns same rest (rw lem at e))
    | inr (request, read) ↦
        let (r, n) = process_request turn.tx turn.later turn.now request s.node in
        let lem = serve_request_lem turn text request s read in
        let lem_u : serve_line turn (line text) u ≡ emit (sent_as turn.writes r) n u.written =
          rw same (serve_request_lem turn text request u read) in
        let kept : handle_ipc_connection (turn ∷ requests_of turns) u
            ≡ go_on (emit (sent_as turn.writes r) n u.written) (requests_of turns) =
          handle_cons turn (requests_of turns) u
          ∙ ap (λ x. go_on (serve_line turn x u) (requests_of turns)) is
          ∙ ap (λ x. go_on x (requests_of turns)) lem_u in
        rw (read, kept, lem)
          (request_step (sent_as turn.writes r) n s.written u.written turns rest (rw lem at e))
  ]

  skips : (turns : List Turn) → Skips turns
  unfolding handle_ipc_connection
  skips [] s u same e = (refl, same, omega arith)
  skips (turn ∷ turns) s u same e = read_step turn turn.read turns s u refl same (skips turns) e

  -- A connection that comes to its end has answered each line with one line, also where a line is no
  -- request; and the node has been served exactly as over the connection without those lines, which
  -- comes to its end too.
  pub handle_ipc_connection-answers :
      (turns : List Turn) (s : Session)
      → (handle_ipc_connection turns s).0 ≡ ok tt
      → let s' = (handle_ipc_connection turns s).1 in
        let (r, u) = handle_ipc_connection (requests_of turns) s in
        (r ≡ ok tt) × (s'.node ≡ u.node) × (length s'.written ≡ length s.written + length turns)
  handle_ipc_connection-answers turns s e = skips turns s s refl e
