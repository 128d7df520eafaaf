-- ===== src/Node/Accept.antt =====
-- `handle_append_entries` on a request that joins on to the log.
use raft_ebpf.Prelude.{
  ℕ, ◌+◌, ◌≤◌, ◌<◌, min, String, number_eq, Bool, true, false, ◌&&◌, not, ◌≡◌, refl, ap, ◌∙◌, some,
  List, [], ◌∷◌, ◌++◌, ok, All, ltb, if◌then◌else◌, Bool-cases, bind_ok, inl, inr, arith, Result,
}
use raft_ebpf.Common.{
  Heapless, string_of, AppendEntriesRequest, append_entries_response, new_envelope, MessageEnvelope,
}
use raft_ebpf.RaftLog.{RaftLog, current_term, has_entry}
use raft_ebpf.RaftLog.Format.{Json}
use raft_ebpf.RaftLog.RoundTrip.{Fits}
use raft_ebpf.RaftLog.Recovery.{IsDurable}
use raft_ebpf.RaftLog.Contiguous.{IsContiguous, CountsFrom}
use raft_ebpf.Node.State.{RaftNode, with_log_run}
use raft_ebpf.Node.Apply.{apply_committed_entries}
use raft_ebpf.Node.Applied.{caught_up, apply_committed_entries_lem}
use raft_ebpf.Node.Follow.{
  send_append_entries_response, store_new_entries, raise_commit, store_if_consistent,
  follow_under_lock, answer, handle_append_entries,
}
use raft_ebpf.Node.Adopt.{
  last_index-adopted, commit_index-adopted, last_applied-adopted, adopted, adopt_leader_lem,
  has_entry-adopted, outgoing-adopted, IsDurable-adopted, IsContiguous-adopted,
}
use raft_ebpf.Node.Matching.{Stored-adopted, Stored, conflict, kept_end, store_new_entries-Stored}

-- A request that a follower takes: not of an older term, joining on to the log, its entries
-- numbered from the one after the previous index, and in conflict with no committed entry.
pub record IsAcceptable (req : AppendEntriesRequest) (n : RaftNode) : Type 0 where
  pub fresh : current_term n.log ≤ req.term
  pub prev : has_entry req.prev_log_index req.prev_log_term n.log ≡ true
  pub reach : req.prev_log_index ≤ n.log.last_index
  pub counts : CountsFrom (req.prev_log_index + 1) req.entries
  pub fits : All Fits req.entries
  pub safe : n.commit_index < kept_end (conflict req.entries n.log) n.log

module _ ⦃h : Heapless⦄ ⦃j : Json⦄ where
  and_false : (b : Bool) → (b && not true) ≡ false
  and_false true = refl
  and_false false = refl

  fresh_not_stale : (a b : ℕ) → b ≤ a → ltb a b ≡ false
  fresh_not_stale a b le = ground arith

  store_if_consistent_lem :
      (from : String) (req : AppendEntriesRequest) (term : ℕ) (m : RaftNode) (log' : RaftLog)
      → has_entry req.prev_log_index req.prev_log_term m.log ≡ true
      → store_new_entries req.entries m.log ≡ (ok tt, log')
      → store_if_consistent from req term m
        ≡ (ok (some term), raise_commit req.leader_commit (record m { log = log' }))
  unfolding store_if_consistent
  store_if_consistent_lem from req term m log' prev done =
      rw (prev, and_false (ltb 0 req.prev_log_index), done) refl

  follow_under_lock_lem :
      (from : String) (req : AppendEntriesRequest) (n : RaftNode) (log' : RaftLog)
      → n.log.disk.faults ≡ []
      → IsAcceptable req n
      → store_new_entries req.entries (adopted req n).log ≡ (ok tt, log')
      → follow_under_lock from req n ≡ (
        ok (some (current_term n.log)),
        raise_commit req.leader_commit (record (adopted req n) { log = log' }),
      )
  unfolding follow_under_lock
  follow_under_lock_lem from req n log' healthy a done =
      rw (fresh_not_stale req.term (current_term n.log) a.fresh, adopt_leader_lem req n healthy)
        (store_if_consistent_lem from req (current_term n.log) (adopted req n) log'
          (has_entry-adopted req n req.prev_log_index req.prev_log_term ∙ a.prev) done)

  -- the commit index that the follower goes on with
  abbrev pub new_commit : AppendEntriesRequest → ℕ → ℕ → ℕ
  new_commit req last commit =
      if ltb commit req.leader_commit then min req.leader_commit last else commit

  raise_commit_lem :
      (req : AppendEntriesRequest) (m : RaftNode)
      → raise_commit req.leader_commit m
        ≡ record m { commit_index = new_commit req m.log.last_index m.commit_index }
  raise_commit_lem req m = elim (Bool-cases (ltb m.commit_index req.leader_commit)) [
    | inl raised ↦ rw raised
    | inr same ↦ rw same
  ]

  new_commit-rises :
      (req : AppendEntriesRequest) (last commit : ℕ)
      → commit ≤ last
      → commit ≤ new_commit req last commit
  new_commit-rises req last commit known = ground arith

  -- the answer to a request that was taken
  abbrev pub success_reply : String → ℕ → RaftNode → MessageEnvelope
  success_reply from term n = new_envelope n.node_id from (
      append_entries_response (record {
        term = term;
        success = true;
        last_log_index = n.log.last_index;
        node_id = string_of 64 n.node_id;
      }))

  answer_lem :
      (from : String) (term : ℕ) (m : RaftNode)
      → m.log_held ≡ false
      → m.last_applied ≤ m.commit_index
      → answer from (some term) m ≡ (
        ok tt,
        record (caught_up m) {
          log_held = false;
          outgoing = m.outgoing ++ success_reply from term m ∷ [];
        },
      )
  unfolding send_append_entries_response
  answer_lem from term m free behind =
      bind_ok apply_committed_entries _ (apply_committed_entries_lem m free behind)

  -- what a follower that takes a request has done when the call returns
  pub record Accepted (from : String) (req : AppendEntriesRequest) (n after : RaftNode)
      : Type 0 where
    pub stored : Stored (req.prev_log_index + 1) req.entries n.log after.log
    pub commit : after.commit_index ≡ new_commit req after.log.last_index n.commit_index
    pub rises : n.commit_index ≤ after.commit_index
    pub applied : after.last_applied ≡ after.commit_index
    pub free : after.log_held ≡ false
    pub answered : after.outgoing ≡ n.outgoing ++ success_reply from (current_term n.log) after ∷ []

  IsAcceptable-held :
      (req : AppendEntriesRequest) (n : RaftNode)
      → IsAcceptable req n
      → IsAcceptable req (record n { log_held = true })
  IsAcceptable-held req n a = record {
    fresh = a.fresh;
    prev = a.prev;
    reach = a.reach;
    counts = a.counts;
    fits = a.fits;
    safe = a.safe;
  }

  -- the calls after the guard is dropped
  Accepted-answer :
      (from : String) (req : AppendEntriesRequest) (n : RaftNode) (log' : RaftLog)
      → n.last_applied ≤ n.commit_index
      → n.commit_index ≤ log'.last_index
      → Stored (req.prev_log_index + 1) req.entries n.log log'
      → let held : RaftNode = record n { log_held = true } in
        let (r, n') =
          answer from
            (some (current_term n.log))
            (record (raise_commit req.leader_commit (record (adopted req held) { log = log' })) {
              log_held = false;
            }) in
        (r ≡ ok tt) × Accepted from req n n'
  Accepted-answer from req n log' behind known s =
      let held : RaftNode = record n { log_held = true } in
      let commit = commit_index-adopted req held in
      let m0 : RaftNode = record (adopted req held) { log = log' } in
      let m : RaftNode = record m0 {
        commit_index = new_commit req log'.last_index m0.commit_index;
        log_held = false;
      } in
      let rises = new_commit-rises req log'.last_index m0.commit_index (omega (arith, commit)) in
      let le : m.last_applied ≤ m.commit_index = omega (arith, last_applied-adopted req held) in
      rw (raise_commit_lem req m0, answer_lem from (current_term n.log) m refl le)
        (
          refl,
          record {
            stored = s;
            commit = ap (new_commit req log'.last_index) commit;
            rises = omega arith;
            applied = refl;
            free = refl;
            answered =
                ap
                  (λ (o : List MessageEnvelope).
                    o ++ success_reply from (current_term n.log) m ∷ [])
                  (outgoing-adopted req held);
          },
        )

  -- A node takes an acceptable request, where the log's mutex is free, the log is contiguous and
  -- in step with its files, and no more is applied than committed. The call returns; the log holds
  -- the batch, in memory and on disk; the commit index is the lower of the leader's and the last
  -- index where the leader's is above the node's, and does not fall; the entries up to it are
  -- applied; and one success reply is sent.
  pub handle_append_entries-accepts :
      (from : String) (req : AppendEntriesRequest) (n : RaftNode)
      → n.log_held ≡ false
      → n.last_applied ≤ n.commit_index
      → IsAcceptable req n
      → IsDurable n.log
      → IsContiguous n.log
      → let (r, n') = handle_append_entries from req n in (r ≡ ok tt) × Accepted from req n n'
  unfolding handle_append_entries
  handle_append_entries-accepts from req n free behind a d c =
      let held : RaftNode = record n { log_held = true } in
      let base = adopted req held in
      let (done, s) =
        store_new_entries-Stored (req.prev_log_index + 1) req.entries base.log a.counts
          (omega arith) (omega (arith, last_index-adopted req held)) a.fits
          (IsDurable-adopted req held d) (IsContiguous-adopted req held c) in
      let log' = (store_new_entries req.entries base.log).1 in
      let stored = Stored-adopted req held (req.prev_log_index + 1) req.entries log' s in
      let run : store_new_entries req.entries base.log ≡ (ok tt, log') =
        ap (λ (r : Result (Unit {0})). (r, log')) done in
      let under =
        follow_under_lock_lem from req held log' d.healthy (IsAcceptable-held req n a) run in
      rw (with_log_run (follow_under_lock from req) n free under)
        (Accepted-answer from req n log' behind (omega (arith, stored.last, a.safe)) stored)
