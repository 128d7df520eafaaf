-- ===== src/Daemon/Committing.antt =====
-- The leader's side: replies of followers that commit entries, and proposals.
use raft_ebpf.Prelude.{
  ℕ, ◌+◌, ◌-◌, ◌≤◌, ◌<◌, String, number_eq, text_eq, false, ◌≡◌, refl, Option, none, some, u64_mod,
  modify, ◌>>◌, Bool-cases, inl, inr, arith,
}
use raft_ebpf.HashMap.{insert}
use raft_ebpf.HashMap.Laws.{get-insert}
use raft_ebpf.Common.{Heapless, Command, AppendEntriesResponse, LogEntry, same_role, leader}
use raft_ebpf.StateMachine.{StateMachine}
use raft_ebpf.RaftLog.{RaftLog, current_term}
use raft_ebpf.RaftLog.Format.{Json}
use raft_ebpf.RaftLog.RoundTrip.{FitsCommand}
use raft_ebpf.RaftLog.Durable.{appended, append_lem, append-IsDurable}
use raft_ebpf.RaftLog.Growth.{append-IsContiguous}
use raft_ebpf.Node.State.{RaftNode}
use raft_ebpf.Node.Apply.{apply_committed_entries}
use raft_ebpf.Node.Quorum.{highest-IsHighest}
use raft_ebpf.Node.Heartbeat.{send_heartbeats}
use raft_ebpf.Node.Commit.{
  highest, notify_pending_requests, commit_found, try_advance_commit_index, Next, finish, step_down,
  go_on, after_append_response, handle_append_entries_response,
}
use raft_ebpf.Node.Client.{propose}
use raft_ebpf.Daemon.Sound.{Sound, SoundAt, Sound-log}
use raft_ebpf.Daemon.Safe.{Safe, safe_rules}
use raft_ebpf.Daemon.Handlers.{
  apply_committed_entries-Safe, notify_pending_requests-Safe, accept_term-Safe,
  read_append_response-Safe, send_heartbeats-Safe,
}

module _ ⦃h : Heapless⦄ ⦃j : Json⦄ where
  settle-Safe : (i : ℕ) → Safe (do apply_committed_entries; notify_pending_requests i)
  settle-Safe i = search (safe_rules, apply_committed_entries-Safe, notify_pending_requests-Safe)

  commit_found-Sound :
      (found : Option ℕ) (n : RaftNode)
      → Sound n
      → ((i : ℕ) → found ≡ some i → (n.commit_index < i) × (i ≤ n.log.last_index))
      → Sound (commit_found found n).1
  commit_found-Sound none n s range = s
  commit_found-Sound (some i) n s range =
      let (above, known) = range i refl in
      (settle-Safe i).at (record n { commit_index = i })
        (Sound-log n.log n.log n.commit_index i n.last_applied n.state_machine s s.durable
          s.contiguous known (omega (arith, s.behind)) (λ k hi. refl))

  pub try_advance_commit_index-Safe : Safe try_advance_commit_index
  unfolding try_advance_commit_index
  try_advance_commit_index-Safe = record {
    at = λ n s.
        let rounds = n.log.last_index - n.commit_index in
        let top : n.commit_index + rounds ≡ n.log.last_index = omega (arith, s.known) in
        elim (Bool-cases (same_role n.role leader)) [
          | inr other ↦ rw other s
          | inl lead ↦ elim (Bool-cases n.log_held) [
            | inl held ↦ rw (lead, held) s
            | inr free ↦
                rw (lead, free)
                  (commit_found-Sound (highest n n.commit_index rounds)
                    (record n { log_held = false }) s
                    λ i e.
                      let (above, below, good) =
                        (highest-IsHighest n n.commit_index rounds).good i e in
                      (above, omega arith))
          ]
        ];
  }

  after_append_response-Safe : (term : ℕ) (next : Next) → Safe (after_append_response term next)
  after_append_response-Safe term finish = search safe_rules
  after_append_response-Safe term step_down = accept_term-Safe term
  after_append_response-Safe term go_on = try_advance_commit_index-Safe

  pub handle_append_entries_response-Safe :
      (from : String) (resp : AppendEntriesResponse)
      → Safe (handle_append_entries_response from resp)
  unfolding handle_append_entries_response
  handle_append_entries_response-Safe from resp =
      search (safe_rules, read_append_response-Safe, after_append_response-Safe)

  appended-Sound :
      (term : ℕ) (c : Command) (log : RaftLog) (commit applied : ℕ) (sm : StateMachine)
      → log.last_index + 1 < u64_mod
      → FitsCommand c
      → SoundAt log commit applied sm
      → SoundAt (appended term c log) commit applied sm
  appended-Sound term c log commit applied sm room fits s =
      let lem = append_lem term c log room s.durable in
      let (done, d) = append-IsDurable term c log room fits s.durable in
      let e : LogEntry = record { index = log.last_index + 1; term = term; command = c } in
      Sound-log log (appended term c log) commit commit applied sm s (rw lem at d)
        (rw lem at (append-IsContiguous term c log room s.durable s.contiguous))
        (omega (arith, s.known)) s.behind
        λ k hi. ground (arith, get-insert log.entries (log.last_index + 1) k e, s.known, s.behind)

  register-Safe :
      (response_tx : ℕ) (index : ℕ)
      → Safe (do
        modify (λ n. record n { pending_requests = insert n.pending_requests index response_tx })
        send_heartbeats)
  register-Safe response_tx index = search (safe_rules, send_heartbeats-Safe)

  pub propose-Sound :
      (c : Command) (response_tx : ℕ) (n : RaftNode)
      → n.log.last_index + 1 < u64_mod
      → FitsCommand c
      → Sound n
      → Sound (propose c response_tx n).1
  unfolding propose
  propose-Sound c response_tx n room fits s = elim (Bool-cases (same_role n.role leader)) [
    | inr other ↦ rw other s
    | inl lead ↦ elim (Bool-cases n.log_held) [
      | inl held ↦ rw (lead, held) s
      | inr free ↦
          rw (lead, free, append_lem (current_term n.log) c n.log room s.durable)
            ((register-Safe response_tx (n.log.last_index + 1)).at
              (record n { log_held = false; log = appended (current_term n.log) c n.log })
              (appended-Sound (current_term n.log) c n.log n.commit_index n.last_applied
                n.state_machine room fits s))
    ]
  ]
