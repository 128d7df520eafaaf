-- ===== src/Node/Following.antt =====
-- Handlers that leave a follower a follower.
use raft_ebpf.Prelude.{
  ℕ, zero, suc, ◌-◌, String, Bool, true, false, ◌≡◌, refl, ap, ◌∙◌, Option, none, some, Result, ok,
  err, blocked, Exec, pure, gets, modify, continue, ◌>>=◌, ◌>>◌, if◌then◌else◌, Bool-cases, inl,
  inr, arith,
}
use raft_ebpf.Common.{
  Heapless, follower, leader, candidate, same_role, AppendEntriesRequest, AppendEntriesResponse,
  RequestVoteRequest, RequestVoteResponse,
}
use raft_ebpf.RaftLog.{RaftLog}
use raft_ebpf.RaftLog.Format.{Json}
use raft_ebpf.Node.State.{RaftNode, Handler, release, with_log, on_log}
use raft_ebpf.Node.Apply.{apply_next, apply_while, apply_all, apply_committed_entries}
use raft_ebpf.Node.Follow.{
  send_append_entries_response, raise_commit, adopt_leader, store_if_consistent, follow_under_lock,
  answer, handle_append_entries,
}
use raft_ebpf.Node.Commit.{read_append_response, handle_append_entries_response}
use raft_ebpf.Node.Vote.{
  send_request_vote_response, confirm_vote, decide_vote, vote_under_lock, handle_request_vote,
}
use raft_ebpf.Node.Elect.{read_vote_response, handle_request_vote_response}

abbrev pub IsFollower : RaftNode → Type 0
IsFollower n = n.role ≡ follower

pub record Follows {A : Type 0} (m : Handler A) : Type 0 where
  pub at : (n : RaftNode) → IsFollower n → IsFollower (m n).1

module _ {A : Type 0} where
  pub Follows-pure : (a : A) → Follows (pure a)
  Follows-pure a = record { at = λ n f. f }

  pub Follows-gets : (g : RaftNode → A) → Follows (gets g)
  Follows-gets g = record { at = λ n f. f }

  pub Follows-if :
      (b : Bool) (m k : Handler A) → Follows m → Follows k → Follows (if b then m else k)
  Follows-if true m k fm fk = fm
  Follows-if false m k fm fk = fk

  release-IsFollower : (x : Result A × RaftNode) → IsFollower x.1 → IsFollower (release x).1
  release-IsFollower (ok a, n) f = f
  release-IsFollower (err e, n) f = f
  release-IsFollower (blocked, n) f = f

  pub Follows-with_log : (body : Handler A) → Follows body → Follows (with_log body)
  Follows-with_log body k = record {
    at = λ n f. elim (Bool-cases n.log_held) [
      | inl held ↦ rw held f
      | inr free ↦ rw free (
          release-IsFollower (body (record n { log_held = true }))
            (k.at (record n { log_held = true }) f))
    ];
  }

  pub Follows-on_log : (m : Exec RaftLog A) → Follows (on_log m)
  Follows-on_log m = record { at = λ n f. f }

-- what makes a node a follower, or does not touch its role
pub Follows-modify :
    (g : RaftNode → RaftNode)
    → ((n : RaftNode) → IsFollower n → IsFollower (g n))
    → Follows (modify g)
Follows-modify g keeps = record { at = keeps }

pub IsFollower-same : (n : RaftNode) → IsFollower n → IsFollower n
IsFollower-same n f = f

pub IsFollower-set : (n : RaftNode) → IsFollower n → follower ≡ follower
IsFollower-set n f = refl

module _ {A B : Type 0} where
  continue-IsFollower :
      (r : Result A) (g : A → Handler B) (n : RaftNode)
      → IsFollower n
      → ((a : A) → Follows (g a))
      → IsFollower (continue r g n).1
  continue-IsFollower (ok a) g n f k = (k a).at n f
  continue-IsFollower (err e) g n f k = f
  continue-IsFollower blocked g n f k = f

  pub Follows-bind :
      (m : Handler A) (g : A → Handler B)
      → Follows m
      → ((a : A) → Follows (g a))
      → Follows (m >>= g)
  Follows-bind m g km kg = record {
    at = λ n f. let (r, n') = m n in continue-IsFollower r g n' (km.at n f) kg;
  }

  pub Follows-then : (m : Handler A) (k : Handler B) → Follows m → Follows k → Follows (m >> k)
  Follows-then m k km kk = Follows-bind m (λ _. k) km (λ _. kk)

pub ruleset follows_rules = (
  Follows-pure, Follows-gets, Follows-if, Follows-with_log, Follows-on_log, Follows-modify,
  Follows-bind, Follows-then, IsFollower-same, IsFollower-set,
)

role-apply_while : (fuel commit : ℕ) (n : RaftNode) → (apply_while fuel commit n).role ≡ n.role
unfolding apply_while apply_next
role-apply_while zero commit n = refl
role-apply_while (suc fuel) commit n = ground (arith, role-apply_while fuel commit (apply_next n))

apply_all-IsFollower : (n : RaftNode) → IsFollower n → IsFollower (apply_all n)
unfolding apply_all
apply_all-IsFollower n f = role-apply_while (n.commit_index - n.last_applied) n.commit_index n ∙ f

apply_committed_entries-Follows : Follows apply_committed_entries
unfolding apply_committed_entries
apply_committed_entries-Follows = search (follows_rules, apply_all-IsFollower)

module _ ⦃h : Heapless⦄ ⦃j : Json⦄ where
  raise_commit-IsFollower : (c : ℕ) (n : RaftNode) → IsFollower n → IsFollower (raise_commit c n)
  raise_commit-IsFollower c n f = ground (arith, f)

  send_append_entries_response-Follows :
      (to : String) (term : ℕ) (b : Bool) → Follows (send_append_entries_response to term b)
  unfolding send_append_entries_response
  send_append_entries_response-Follows to term b = search follows_rules

  adopt_leader-Follows : (req : AppendEntriesRequest) → Follows (adopt_leader req)
  unfolding adopt_leader
  adopt_leader-Follows req = search follows_rules depth 12

  store_if_consistent-Follows :
      (from : String) (req : AppendEntriesRequest) (term : ℕ)
      → Follows (store_if_consistent from req term)
  unfolding store_if_consistent
  store_if_consistent-Follows from req term =
      search (follows_rules, send_append_entries_response-Follows, raise_commit-IsFollower) depth 12

  follow_under_lock-Follows :
      (from : String) (req : AppendEntriesRequest) → Follows (follow_under_lock from req)
  unfolding follow_under_lock
  follow_under_lock-Follows from req =
      search
        (
          follows_rules, send_append_entries_response-Follows, adopt_leader-Follows,
          store_if_consistent-Follows,
        )
        depth 12

  answer-Follows : (from : String) (o : Option ℕ) → Follows (answer from o)
  answer-Follows from none = search follows_rules
  answer-Follows from (some term) =
      search (follows_rules, apply_committed_entries-Follows, send_append_entries_response-Follows)

  pub handle_append_entries-Follows :
      (from : String) (req : AppendEntriesRequest) → Follows (handle_append_entries from req)
  unfolding handle_append_entries
  handle_append_entries-Follows from req =
      search (follows_rules, follow_under_lock-Follows, answer-Follows)

  send_request_vote_response-Follows :
      (to : String) (term : ℕ) (b : Bool) → Follows (send_request_vote_response to term b)
  unfolding send_request_vote_response
  send_request_vote_response-Follows to term b = search follows_rules

  pub handle_request_vote-Follows :
      (from : String) (req : RequestVoteRequest) → Follows (handle_request_vote from req)
  unfolding handle_request_vote vote_under_lock decide_vote confirm_vote
  handle_request_vote-Follows from req =
      search (follows_rules, send_request_vote_response-Follows) depth 16 fits 8000

  -- a follower passes over the responses
  pub handle_append_entries_response-Follows :
      (from : String) (resp : AppendEntriesResponse)
      → Follows (handle_append_entries_response from resp)
  unfolding handle_append_entries_response read_append_response
  handle_append_entries_response-Follows from resp = record {
    at = λ n f.
        let no : same_role n.role leader ≡ false = ap (λ r. same_role r leader) f in
        elim (Bool-cases n.log_held) [ inl held ↦ rw held f | inr free ↦ rw (free, no) f ];
  }

  pub handle_request_vote_response-Follows :
      (from : String) (resp : RequestVoteResponse)
      → Follows (handle_request_vote_response from resp)
  unfolding handle_request_vote_response read_vote_response
  handle_request_vote_response-Follows from resp = record {
    at = λ n f.
        let no : same_role n.role candidate ≡ false = ap (λ r. same_role r candidate) f in
        elim (Bool-cases n.log_held) [ inl held ↦ rw held f | inr free ↦ rw (free, no) f ];
  }
