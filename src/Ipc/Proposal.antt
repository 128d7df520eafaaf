-- ===== src/Ipc/Proposal.antt =====
-- `Propose` at a leader.
use raft_ebpf.Prelude.{
  ℕ, ◌+◌, ◌<◌, String, number_eq, text_eq, ◌==◌, false, ◌≡◌, refl, ap, ◌∙◌, Option, some, List, [],
  ◌∷◌, ok, Result, All, u64_mod,
}
use raft_ebpf.HashMap.{get}
use raft_ebpf.Common.{Heapless, leader}
use raft_ebpf.StateMachine.Messages.{Values}
use raft_ebpf.RaftLog.{current_term, entry_at}
use raft_ebpf.RaftLog.Format.{Json}
use raft_ebpf.RaftLog.RoundTrip.{FitsCommand}
use raft_ebpf.RaftLog.Recovery.{IsDurable}
use raft_ebpf.Node.State.{RaftNode, ProposeResult}
use raft_ebpf.Node.Client.{propose}
use raft_ebpf.Node.Propose.{propose-stores}
use raft_ebpf.Ipc.Requests.{
  Texts, Received, propose_request, propose_answer, receive_reply, command_of, process_request,
}

-- a channel that nothing was sent to
abbrev pub Unused : ℕ → List (ℕ × ProposeResult) → Type 0
Unused tx replies = All (λ r. (r.0 == tx) ≡ false) replies

module _ ⦃h : Heapless⦄ ⦃j : Json⦄ ⦃v : Values⦄ ⦃t : Texts⦄ where
  receive_reply-Unused :
      (tx : ℕ) (later : Received) (replies : List (ℕ × ProposeResult))
      → Unused tx replies
      → receive_reply tx later replies ≡ later
  receive_reply-Unused tx later [] unused = refl
  receive_reply-Unused tx later (r ∷ replies) unused =
      rw (unused.0) (receive_reply-Unused tx later replies unused.1)

  -- A leader that is asked to propose, with the log's mutex free, the log in step with its files,
  -- the last index below 2^64 - 1, a new reply channel and a command within the capacities, has
  -- the command in its log and on disk, and answers with what arrives on the channel.
  pub process_request-proposes :
      (tx now : ℕ) (later : Received) (key : String) (value : Option String) (n : RaftNode)
      → n.log_held ≡ false
      → n.role ≡ leader
      → n.log.last_index + 1 < u64_mod
      → FitsCommand (command_of key value)
      → IsDurable n.log
      → Unused tx n.replies
      → let (r, n') = process_request tx later now (propose_request key value) n in
        let next = n.log.last_index + 1 in
        (r ≡ ok (propose_answer later))
        × IsDurable n'.log
        × (entry_at n'.log next
            ≡ some (record {
              index = next;
              term = current_term n.log;
              command = command_of key value;
            }))
        × (get n'.pending_requests next ≡ some tx)
  unfolding process_request
  process_request-proposes tx now later key value n free lead room fits d unused =
      let (done, durable, last, stored, pending, quiet, same, sent) =
        propose-stores (command_of key value) tx n free lead room fits d in
      let n' = (propose (command_of key value) tx n).1 in
      let run : propose (command_of key value) tx n ≡ (ok tt, n') =
        ap (λ (r : Result (Unit {0})). (r, n')) done in
      let answer : receive_reply tx later n'.replies ≡ later =
        ap (receive_reply tx later) quiet ∙ receive_reply-Unused tx later n.replies unused in
      rw run (ap (λ (x : Received). ok (propose_answer x)) answer, durable, stored, pending)
