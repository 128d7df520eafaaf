-- ===== src/Tests/NodeRuns.antt =====
-- The theorems on the node, applied to runs of it.
use mathlib.Core.List.{Mem, not-mem-nil, Nodup, Nodup-cons, Nodup-nil}
use raft_ebpf.Prelude.{
  ◌*◌, ◌↔◌, ℕ, ◌+◌, ◌≤◌, ◌<◌, String, ◌≡◌, refl, none, some, List, [], ◌∷◌, map, ok, blocked, true,
  false, All, length, number_eq, text_eq, arith,
}
use raft_ebpf.HashMap.{get}
use raft_ebpf.Common.{delete, follower, candidate, leader, append_entries, new_envelope}
use raft_ebpf.StateMachine
use raft_ebpf.StateMachine.{get_value}
use raft_ebpf.StateMachine.Semantics.{effects}
use raft_ebpf.RaftLog
use raft_ebpf.RaftLog.{
  voted_for, RaftLog, new, current_term, has_entry, entry_at, get_entries, term_at,
  set_current_term,
}
use raft_ebpf.RaftLog.Recovery.{IsDurable}
use raft_ebpf.Node.State.{RaftNode, ProposeResult}
use raft_ebpf.Node.Apply.{apply_committed_entries}
use raft_ebpf.Node.Applied.{caught_up, apply_committed_entries_lem, apply_committed_entries-effects}
use raft_ebpf.Node.Follow.{handle_append_entries, store_new_entries}
use raft_ebpf.Node.Commit.{try_advance_commit_index, notify_pending_requests}
use raft_ebpf.Node.Quorum.{IsCommittable, try_advance_commit_index-commits}
use raft_ebpf.Node.Vote.{handle_request_vote}
use raft_ebpf.Node.Elect.{start_election, handle_request_vote_response}
use raft_ebpf.Node.Client.{propose}
use raft_ebpf.Node.Dispatch.{handle_message}
use raft_ebpf.Node.Advance.{Advances}
use raft_ebpf.Node.Terms.{handle_message-Advances}
use raft_ebpf.Node.Quiet.{saved}
use raft_ebpf.Node.Matching.{Stored, conflict, store_new_entries-Stored}
use raft_ebpf.Node.Accept.{IsAcceptable, Accepted, handle_append_entries-accepts}
use raft_ebpf.Node.Ballot.{Balloted, handle_request_vote-ballots}
use raft_ebpf.Node.Stand.{asked, candidacy, start_election-stands}
use raft_ebpf.Node.Lead.{heartbeat}
use raft_ebpf.Node.Election.{handle_request_vote_response-leads}
use raft_ebpf.Node.Notify.{IsDue, notify_pending_requests-tells}
use raft_ebpf.Node.Propose.{propose-stores}
use raft_ebpf.Node.Blocking.{stale_append-blocks, inconsistent_append-blocks}
use raft_ebpf.Tests.Libraries.{bounded, unary}
use raft_ebpf.Tests.Log.{two, two-IsDurable, two-IsContiguous, delete_2, delete_3}
use raft_ebpf.Tests.Nodes.{node, replace_second, gap, stale, ask, granted}

acceptable : IsAcceptable replace_second (node follower)
unfolding new RaftLog.append_entries has_entry conflict term_at
acceptable = record {
  fresh = omega arith;
  prev = refl;
  reach = omega arith;
  counts = (refl, (refl, tt));
  fits = (omega arith, (omega arith, tt));
  safe = omega arith;
}

handle_append_entries-accepts_example :
    let (r, n') = handle_append_entries "b" replace_second (node follower) in
    (r ≡ ok tt) × Accepted "b" replace_second (node follower) n'
handle_append_entries-accepts_example =
    handle_append_entries-accepts "b" replace_second (node follower) refl (omega arith) acceptable
      two-IsDurable two-IsContiguous

-- a leader whose own term is that of its entries
abbrev leader_1 : RaftNode
leader_1 = record (node leader) { log = (set_current_term 1 two).1 }

try_advance_commit_index-commits_example :
    let after = (try_advance_commit_index leader_1).1.commit_index in
    (0 ≤ after)
    × (0 < after → (after ≤ leader_1.log.last_index) × IsCommittable leader_1 after)
    × ((j : ℕ) → after < j → j ≤ leader_1.log.last_index → ¬ IsCommittable leader_1 j)
try_advance_commit_index-commits_example = try_advance_commit_index-commits leader_1 refl refl

handle_message-Advances_example : Advances (saved (node follower)) (
    saved (handle_message (new_envelope "b" "a" (append_entries replace_second)) (node follower)).1)
handle_message-Advances_example =
    handle_message-Advances (new_envelope "b" "a" (append_entries replace_second)) (node follower)

handle_request_vote-ballots_example :
    let (r, n') = handle_request_vote "b" ask (node follower) in
    (r ≡ ok tt) × (n'.log_held ≡ false) × Balloted "b" ask (node follower) n'
handle_request_vote-ballots_example =
    handle_request_vote-ballots "b" ask (node follower) refl two-IsDurable

store_new_entries-Stored_example :
    let (r, log') = store_new_entries (delete_2 ∷ delete_3 ∷ []) two in
    (r ≡ ok tt) × Stored 2 (delete_2 ∷ delete_3 ∷ []) two log'
unfolding new RaftLog.append_entries
store_new_entries-Stored_example =
    store_new_entries-Stored 2 (delete_2 ∷ delete_3 ∷ []) two (refl, (refl, tt)) (omega arith)
      (omega arith) (omega arith, (omega arith, tt)) two-IsDurable two-IsContiguous

propose-stores_example :
    let (r, n') = propose (delete "a") 7 (node leader) in
    let next = two.last_index + 1 in
    (r ≡ ok tt)
    × IsDurable n'.log
    × (n'.log.last_index ≡ next)
    × (entry_at n'.log next
        ≡ some (record { index = next; term = current_term two; command = delete "a" }))
    × (get n'.pending_requests next ≡ some 7)
    × (n'.replies ≡ [])
    × (n'.commit_index ≡ 0)
    × (n'.outgoing ≡ map (heartbeat n') ("b" ∷ "c" ∷ []))
unfolding new RaftLog.append_entries
propose-stores_example =
    propose-stores (delete "a") 7 (node leader) refl refl (omega arith) (omega arith) two-IsDurable

handle_request_vote_response-leads_example :
    let (r, n') = handle_request_vote_response "b" granted (node candidate) in
    (r ≡ ok tt)
    × Nodup n'.votes_received
    × ((voter : String) → Mem voter n'.votes_received ↔ Mem voter ("b" ∷ "a" ∷ []))
    × (3 < 2 * (length n'.votes_received + 1) → n'.role ≡ leader)
    × (2 * (length n'.votes_received + 1) ≤ 3 → n'.role ≡ candidate)
    × (n'.log ≡ two)
handle_request_vote_response-leads_example =
    handle_request_vote_response-leads "b" granted (node candidate) refl refl (omega arith) refl
      (Nodup-cons.1 (not-mem-nil, Nodup-nil))

notify_pending_requests-tells_example :
    let (r, n') = notify_pending_requests 1 (node leader) in
    (r ≡ ok tt)
    × ((sent : List (ℕ × ProposeResult)) × (n'.replies ≡ sent) × All (IsDue (node leader) 1) sent)
    × ((k : ℕ) → k ≤ 1 → get n'.pending_requests k ≡ none)
notify_pending_requests-tells_example = notify_pending_requests-tells 1 (node leader)

abbrev committed_node : RaftNode
committed_node = record (node follower) { commit_index = 2 }

apply_committed_entries_lem_example :
    apply_committed_entries committed_node
    ≡ (ok tt, record (caught_up committed_node) { log_held = false })
apply_committed_entries_lem_example = apply_committed_entries_lem committed_node refl (omega arith)

apply_committed_entries-effects_example :
    let n' = (apply_committed_entries committed_node).1 in
    ((key : String)
      → get_value n'.state_machine key
        ≡ effects (get_entries 1 2 two) (get_value StateMachine.new) key)
    × (n'.last_applied ≡ 2)
    × (n'.state_machine.last_applied ≡ 2)
unfolding new RaftLog.append_entries
apply_committed_entries-effects_example =
    apply_committed_entries-effects committed_node refl (omega arith) (omega arith) refl
      two-IsContiguous

-- the follower at term 1
abbrev later : RaftNode
later = record (node follower) { log = (set_current_term 1 two).1 }

stale_append-blocks_example :
    handle_append_entries "b" stale later ≡ (blocked, record later { log_held = true })
unfolding new RaftLog.append_entries set_current_term
stale_append-blocks_example = stale_append-blocks "b" stale later refl (omega arith)

inconsistent_append-blocks_example :
    let (r, n') = handle_append_entries "b" gap (node follower) in
    (r ≡ blocked) × (n'.log_held ≡ true) × (n'.outgoing ≡ [])
unfolding new RaftLog.append_entries has_entry
inconsistent_append-blocks_example =
    inconsistent_append-blocks "b" gap (node follower) refl refl (omega arith) (omega arith) refl

start_election-stands_example :
    let (r, n') = start_election (node follower) in
    (r ≡ ok tt)
    × IsDurable n'.log
    × (current_term n'.log ≡ 1)
    × (voted_for n'.log ≡ some "a")
    × (n'.role ≡ candidate)
    × (n'.votes_received ≡ "a" ∷ [])
    × (n'.outgoing ≡ map (asked (candidacy 1 (node follower)) (node follower)) ("b" ∷ "c" ∷ []))
unfolding new RaftLog.append_entries
start_election-stands_example =
    start_election-stands (node follower) refl (omega arith) refl two-IsDurable
