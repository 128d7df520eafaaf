-- ===== src/Node/Commit.antt =====
-- `try_advance_commit_index`, `notify_pending_requests` and `handle_append_entries_response`.
use raft_ebpf.Prelude.{
  ℕ, zero, suc, ◌+◌, ◌-◌, ◌/◌, max, String, text_eq, number_eq, Bool, false, Option, none, some,
  List, [], ◌∷◌, pure, gets, modify, ◌>>=◌, ◌>>◌, ◌&&◌, not, eqb, ltb, leb, length, next_u64,
  if◌then◌else◌,
}
use raft_ebpf.HashMap.{HashMap, get, insert, remove, keys}
use raft_ebpf.Common.{Heapless, same_role, leader, follower, AppendEntriesResponse}
use raft_ebpf.RaftLog.{current_term, term_at, set_current_term}
use raft_ebpf.RaftLog.Format.{Json}
use raft_ebpf.Node.State.{RaftNode, Handler, success, with_log, on_log, set_role, reply}
use raft_ebpf.Node.Apply.{apply_committed_entries}

-- `total_nodes / 2 + 1`, with this node beside its peers
abbrev pub majority : RaftNode → ℕ
majority n = (length n.peers + 1) / 2 + 1

-- the peers that are known to hold index `n`; the source counts on from 1, for the node itself
unfoldable pub replicas : ℕ → HashMap String ℕ → ℕ
replicas n [] = 1
replicas n ((peer_id, idx) ∷ rest) = (if leb n idx then 1 else 0) + replicas n rest

abbrev pub same_term : Option ℕ → ℕ → Bool
same_term none term = false
same_term (some t) term = eqb t term

-- the two tests that let the loop commit index `i`
unfoldable pub can_commit : RaftNode → ℕ → Bool
unfolding term_at replicas
can_commit n i =
    same_term (term_at n.log i) (current_term n.log) && leb (majority n) (replicas i n.match_index)

-- `for n in (base + 1..=base + rounds).rev()`
unfoldable pub highest : RaftNode → ℕ → ℕ → Option ℕ
unfolding can_commit
highest n base zero = none
highest n base (suc rounds) =
    let rest = highest n base rounds in
    if can_commit n (base + suc rounds) then some (base + suc rounds) else rest

abbrev pub below_index : ℕ → List ℕ → List ℕ
below_index up_to [] = []
below_index up_to (idx ∷ rest) =
    let more = below_index up_to rest in if leb idx up_to then idx ∷ more else more

abbrev pub notify_one : Option ℕ → ℕ → Handler (Unit {0})
notify_one none idx = pure tt
notify_one (some tx) idx = do
  modify (λ n. record n { pending_requests = remove n.pending_requests idx })
  reply tx (success idx)

unfoldable pub notify_each : List ℕ → Handler (Unit {0})
notify_each [] = pure tt
notify_each (idx ∷ indices) = do
  tx ← gets (λ n. get n.pending_requests idx)
  notify_one tx idx
  notify_each indices

unfoldable pub notify_pending_requests : ℕ → Handler (Unit {0})
unfolding notify_each
notify_pending_requests up_to_index = do
  indices ← gets (λ n. below_index up_to_index (keys n.pending_requests))
  notify_each indices

abbrev pub commit_found : Option ℕ → Handler (Unit {0})
commit_found none = pure tt
commit_found (some i) = do
  modify (λ n. record n { commit_index = i })
  apply_committed_entries
  notify_pending_requests i

unfoldable pub try_advance_commit_index : Handler (Unit {0})
unfolding highest apply_committed_entries notify_pending_requests
try_advance_commit_index = do
  role ← gets (λ n. n.role)
  if not (same_role role leader) then pure tt else (do
    found ← with_log (gets (λ n. highest n n.commit_index (n.log.last_index - n.commit_index)))
    commit_found found)

-- What a response handler does after it has dropped the guard of the log.
pub data Next : Type 0 where
  finish step_down go_on : Next

module _ ⦃h : Heapless⦄ ⦃j : Json⦄ where
  abbrev pub accept_term : ℕ → Handler (Unit {0})
  accept_term term = with_log (do on_log (set_current_term term); set_role follower)

  -- `if let Some(idx) = next_index.get_mut(from)`
  abbrev pub back_off : Option ℕ → String → RaftNode → RaftNode
  back_off none from n = n
  back_off (some idx) from n = record n { next_index = insert n.next_index from (max (idx - 1) 1) }

  unfoldable pub read_append_response : String → AppendEntriesResponse → Handler Next
  read_append_response from resp = do
    role ← gets (λ n. n.role)
    term ← gets (λ n. current_term n.log)
    if not (same_role role leader)
        then pure finish
        else if ltb term resp.term
        then pure step_down
        else if resp.success
        then (do
          modify (λ n. record n {
            match_index = insert n.match_index from resp.last_log_index;
            next_index = insert n.next_index from (next_u64 resp.last_log_index);
          })
          pure go_on)
        else (do modify (λ n. back_off (get n.next_index from) from n); pure finish)

  abbrev pub after_append_response : ℕ → Next → Handler (Unit {0})
  after_append_response term finish = pure tt
  after_append_response term step_down = accept_term term
  after_append_response term go_on = try_advance_commit_index

  unfoldable pub handle_append_entries_response :
      String → AppendEntriesResponse → Handler (Unit {0})
  unfolding read_append_response set_current_term try_advance_commit_index
  handle_append_entries_response from resp = do
    next ← with_log (read_append_response from resp)
    after_append_response resp.term next
