-- ===== src/Daemon/Storing.antt =====
-- The handlers that store entries or commit them, on requests that a correct leader makes.
use mathlib.Core.Path.{subst}
use raft_ebpf.Prelude.{
  ℕ, ◌+◌, ◌≤◌, ◌<◌, String, number_eq, true, false, ◌&&◌, not, ◌≡◌, refl, sym, ap, ◌∙◌, Option,
  none, some, List, [], ◌∷◌, length, ok, All, eqb, ltb, leb, leb→le, gets, pure, ◌>>=◌, ◌>>◌,
  ltb→lt, ltb→le, Bool-cases, inl, inr, arith,
}
use raft_ebpf.Common.{Heapless, LogEntry, AppendEntriesRequest}
use raft_ebpf.RaftLog.{RaftLog, entry_at, term_at, has_entry, current_term}
use raft_ebpf.StateMachine.{StateMachine}
use raft_ebpf.RaftLog.Format.{Json}
use raft_ebpf.RaftLog.RoundTrip.{Fits}
use raft_ebpf.RaftLog.Contiguous.{IsContiguous, CountsFrom}
use raft_ebpf.Node.State.{RaftNode, with_log}
use raft_ebpf.Node.Follow.{
  send_append_entries_response, store_new_entries, raise_commit, store_if_consistent,
  follow_under_lock, answer, handle_append_entries,
}
use raft_ebpf.Node.Adopt.{adopted, adopt_leader_lem}
use raft_ebpf.Node.Matching.{conflict, differs, kept_end, Stored, store_new_entries-Stored}
use raft_ebpf.Daemon.Sound.{Sound, SoundAt, Sound-log, Sound-with_term}
use raft_ebpf.Daemon.Safe.{Safe, with_log-Sound, continue-Sound, safe_rules}
use raft_ebpf.Daemon.Handlers.{send_append_entries_response-Safe, answer-Safe}

-- What a follower may take for granted of a request: its entries count up from the one after the
-- previous index, they fit, and at a committed index they are what the follower has.
pub record IsTrusted (req : AppendEntriesRequest) (log : RaftLog) (commit : ℕ) : Type 0 where
  pub counts : CountsFrom (req.prev_log_index + 1) req.entries
  pub fits : All Fits req.entries
  pub agrees : All (λ e. e.index ≤ commit → entry_at log e.index ≡ some e) req.entries

conflict_beyond :
    (es : List LogEntry) (log : RaftLog) (commit : ℕ)
    → All (λ e. e.index ≤ commit → entry_at log e.index ≡ some e) es
    → commit ≤ log.last_index
    → commit < kept_end (conflict es log) log
unfolding conflict term_at
conflict_beyond [] log commit agrees known = omega arith
conflict_beyond (e ∷ es) log commit agrees known =
    elim (Bool-cases (differs (term_at log e.index) e.term)) [
      | inl other ↦ elim (Bool-cases (leb e.index commit)) [
        | inl low ↦
            let found : entry_at log e.index ≡ some e = agrees.0 (leb→le e.index commit low) in
            absurd (ground arith)
        | inr high ↦ rw other (ground arith)
      ]
      | inr same ↦ rw same (conflict_beyond es log commit agrees.1 known)
    ]

-- inside a batch that is stored, a committed index has its old entry
batch_same :
    (start : ℕ) (es : List LogEntry) (log after : RaftLog) (commit k : ℕ)
    → CountsFrom start es
    → All (λ e. e.index ≤ commit → entry_at log e.index ≡ some e) es
    → All (λ e. entry_at after e.index ≡ some e) es
    → start ≤ k
    → k < start + length es
    → k ≤ commit
    → entry_at after k ≡ entry_at log k
batch_same start [] log after commit k counts agrees stored lo hi low = absurd omega arith
batch_same start (e ∷ es) log after commit k counts agrees stored lo hi low =
    elim (Bool-cases (eqb start k)) [
      | inl here ↦
          let at_k : e.index ≡ k = ground arith in
          subst (λ (i : ℕ). entry_at after i ≡ entry_at log i) at_k
            (stored.0 ∙ sym (agrees.0 (omega arith)))
      | inr further ↦
          batch_same (start + 1) es log after commit k counts.1 agrees.1 stored.1 (ground arith)
            (omega arith) low
    ]

-- a request that passes the check joins on to the log
has_entry_reach :
    (index term : ℕ) (log : RaftLog)
    → IsContiguous log
    → (ltb 0 index && not (has_entry index term log)) ≡ false
    → index ≤ log.last_index
unfolding has_entry
has_entry_reach index term log c passed = elim (Bool-cases (ltb log.last_index index)) [
  | inl past ↦ absurd (ground (arith, c.beyond index (ltb→lt log.last_index index past), passed))
  | inr inside ↦ ltb→le log.last_index index inside
]

module _ ⦃h : Heapless⦄ ⦃j : Json⦄ where
  new_batch-Sound :
      (req : AppendEntriesRequest) (log after : RaftLog) (commit applied : ℕ) (sm : StateMachine)
      → SoundAt log commit applied sm
      → IsTrusted req log commit
      → Stored (req.prev_log_index + 1) req.entries log after
      → SoundAt after commit applied sm
  new_batch-Sound req log after commit applied sm s t st =
      let far = conflict_beyond req.entries log commit t.agrees s.known in
      Sound-log log after commit commit applied sm s st.durable st.contiguous
        (omega (arith, st.last, far)) s.behind
        λ k hi. elim (Bool-cases (ltb k (req.prev_log_index + 1))) [
          | inl low ↦ st.below k (ground arith)
          | inr high ↦ elim (Bool-cases (ltb k (req.prev_log_index + 1 + length req.entries))) [
            | inl inside ↦
                batch_same (req.prev_log_index + 1) req.entries log after commit k t.counts t.agrees
                  st.stored (ground arith) (ground arith) (omega (arith, s.behind))
            | inr above ↦ st.above k (ground arith) (omega (arith, s.behind, far))
          ]
        ]

  raise_commit-Sound : (c : ℕ) (n : RaftNode) → Sound n → Sound (raise_commit c n)
  raise_commit-Sound c n s = elim (Bool-cases (ltb n.commit_index c)) [
    | inl less ↦ rw less (
        Sound-log n.log n.log n.commit_index _ n.last_applied n.state_machine s s.durable
          s.contiguous (omega arith)
          (omega (arith, s.behind, s.known, ltb→lt n.commit_index c less)) (λ k hi. refl))
    | inr more ↦ rw more s
  ]

  refuse-Safe :
      (from : String)
      → Safe {A = Option ℕ} (do
        now ← gets (λ n. current_term n.log)
        send_append_entries_response from now false
        pure none)
  refuse-Safe from = search (safe_rules, send_append_entries_response-Safe)

  stale-Safe :
      (from : String) (term : ℕ)
      → Safe {A = Option ℕ} (do send_append_entries_response from term false; pure none)
  stale-Safe from term = search (safe_rules, send_append_entries_response-Safe)

  store_if_consistent-Sound :
      (from : String) (req : AppendEntriesRequest) (term : ℕ) (n : RaftNode)
      → Sound n
      → IsTrusted req n.log n.commit_index
      → Sound (store_if_consistent from req term n).1
  unfolding store_if_consistent
  store_if_consistent-Sound from req term n s t =
      elim (Bool-cases
        (ltb 0 req.prev_log_index && not (has_entry req.prev_log_index req.prev_log_term n.log))) [
          | inl refused ↦ rw refused ((refuse-Safe from).at n s)
          | inr taken ↦
              let reach : req.prev_log_index ≤ n.log.last_index =
                has_entry_reach req.prev_log_index req.prev_log_term n.log s.contiguous taken in
              let (done, stored) =
                store_new_entries-Stored (req.prev_log_index + 1) req.entries n.log t.counts
                  (omega arith) (omega arith) t.fits s.durable s.contiguous in
              let after = (store_new_entries req.entries n.log).1 in
              let ran : store_new_entries req.entries n.log ≡ (ok tt, after) =
                ap (λ r. (r, after)) done in
              rw (taken, ran)
                (raise_commit-Sound req.leader_commit (record n { log = after })
                  (new_batch-Sound req n.log after n.commit_index n.last_applied n.state_machine s t
                    stored))
        ]

  -- the leader's term and name leave the entries alone
  adopted-Trusted :
      (req : AppendEntriesRequest) (n : RaftNode)
      → Sound n × IsTrusted req n.log n.commit_index
      → Sound (adopted req n) × IsTrusted req (adopted req n).log (adopted req n).commit_index
  adopted-Trusted req n (s, t) = elim (Bool-cases (ltb (current_term n.log) req.term)) [
    | inl newer ↦ rw newer (
      Sound-with_term req.term n.log n.commit_index n.last_applied n.state_machine s,
      record { counts = t.counts; fits = t.fits; agrees = t.agrees },
    )
    | inr same ↦ rw same (s, t)
  ]

  follow_under_lock-Sound :
      (from : String) (req : AppendEntriesRequest) (n : RaftNode)
      → Sound n
      → IsTrusted req n.log n.commit_index
      → Sound (follow_under_lock from req n).1
  unfolding follow_under_lock
  follow_under_lock-Sound from req n s t = elim (Bool-cases (ltb req.term (current_term n.log))) [
    | inl stale ↦ rw stale ((stale-Safe from (current_term n.log)).at n s)
    | inr fresh ↦
        let (s', t') = adopted-Trusted req n (s, t) in
        rw (fresh, adopt_leader_lem req n s.durable.healthy)
          (store_if_consistent-Sound from req (current_term n.log) (adopted req n) s' t')
  ]

  pub handle_append_entries-Sound :
      (from : String) (req : AppendEntriesRequest) (n : RaftNode)
      → Sound n
      → IsTrusted req n.log n.commit_index
      → Sound (handle_append_entries from req n).1
  unfolding handle_append_entries
  handle_append_entries-Sound from req n s t =
      let (r, n') = with_log (follow_under_lock from req) n in
      let s' : Sound n' =
        with_log-Sound (follow_under_lock from req) n s
          (follow_under_lock-Sound from req (record n { log_held = true }) s t) in
      continue-Sound r (answer from) n' s' (λ o e. (answer-Safe from o).at n' s')
