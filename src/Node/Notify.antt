-- ===== src/Node/Notify.antt =====
-- `notify_pending_requests`: which clients are told of a success.
use mathlib.Core.List.{append_assoc, append-nil}
use mathlib.Core.Path.{subst}
use raft_ebpf.Prelude.{
  ℕ, ◌≤◌, number_eq, ◌==◌, false, ◌≡◌, refl, sym, ◌∙◌, Option, none, some, List, [], ◌∷◌, ◌++◌, ok,
  All, leb, leb→le, eqb_iff, Bool-cases, Option-cases, inl, inr, arith,
}
use raft_ebpf.HashMap.{HashMap, get, remove, keys}
use raft_ebpf.HashMap.Laws.{get-remove}
use raft_ebpf.Node.State.{RaftNode, ProposeResult, success}
use raft_ebpf.Node.Commit.{below_index, notify_one, notify_each, notify_pending_requests}

-- the node after one client is told
abbrev told : ℕ → ℕ → RaftNode → RaftNode
told tx idx n = record n {
  pending_requests = remove n.pending_requests idx;
  replies = n.replies ++ (tx, success idx) ∷ [];
}

-- what the client of one index is told, and what is left of the requests
abbrev told_of : Option ℕ → ℕ → RaftNode → RaftNode
told_of none idx n = n
told_of (some tx) idx n = told tx idx n

notify_one_lem :
    (o : Option ℕ) (idx : ℕ) (n : RaftNode) → notify_one o idx n ≡ (ok tt, told_of o idx n)
notify_one_lem none idx n = refl
notify_one_lem (some tx) idx n = refl

-- A reply that tells of a success of a request that was pending, at an index up to `limit`.
abbrev pub IsDue : RaftNode → ℕ → ℕ × ProposeResult → Type 0
IsDue n limit (tx, result) =
    (idx : ℕ) × (result ≡ success idx) × (idx ≤ limit) × (get n.pending_requests idx ≡ some tx)

-- every request that is left was there before
abbrev Fewer : HashMap ℕ ℕ → HashMap ℕ ℕ → Type 0
Fewer before after = (k tx : ℕ) → get after k ≡ some tx → get before k ≡ some tx

Fewer-none :
    (before after : HashMap ℕ ℕ) (k : ℕ)
    → Fewer before after
    → get before k ≡ none
    → get after k ≡ none
Fewer-none before after k fewer absent = elim (Option-cases (get after k)) [
  | inl gone ↦ gone
  | inr (tx, there) ↦ let was = fewer k tx there in absurd cc
]

Fewer-remove : (m : HashMap ℕ ℕ) (idx : ℕ) → Fewer m (remove m idx)
Fewer-remove m idx k tx there = elim (Bool-cases (idx == k)) [
  | inl hit ↦ absurd (ground (arith, get-remove m idx k))
  | inr miss ↦ ground (arith, get-remove m idx k)
]

-- a reply that is due of fewer requests is due of all
IsDue-told :
    (limit tx idx : ℕ) (n : RaftNode) (sent : List (ℕ × ProposeResult))
    → All (IsDue (told tx idx n) limit) sent
    → All (IsDue n limit) sent
IsDue-told limit tx idx n [] due = tt
IsDue-told limit tx idx n ((channel, result) ∷ sent) due =
    let (i, named, low, there) = due.0 in
    (
      (i, named, low, Fewer-remove n.pending_requests idx i channel there),
      IsDue-told limit tx idx n sent due.1,
    )

-- what a run of the loop leaves: replies that are due, and no request of an index it went through
pub record Notified (limit : ℕ) (indices : List ℕ) (n after : RaftNode) : Type 0 where
  sent : List (ℕ × ProposeResult)
  replies : after.replies ≡ n.replies ++ sent
  due : All (IsDue n limit) sent
  gone : All (λ idx. get after.pending_requests idx ≡ none) indices
  rest : Fewer n.pending_requests after.pending_requests

notify_each_lem :
    (limit : ℕ) (indices : List ℕ) (n : RaftNode)
    → All (λ idx. idx ≤ limit) indices
    → let (r, n') = notify_each indices n in (r ≡ ok tt) × Notified limit indices n n'
unfolding notify_each
notify_each_lem limit [] n low = (
  refl,
  record {
    sent = [];
    replies = sym (append-nil n.replies);
    due = tt;
    gone = tt;
    rest = λ k tx there. there;
  },
)
notify_each_lem limit (idx ∷ indices) n low = elim (Option-cases (get n.pending_requests idx)) [
  | inl absent ↦
      let (done, t) = notify_each_lem limit indices n low.1 in
      rw absent (
        done,
        record {
          sent = t.sent;
          replies = t.replies;
          due = t.due;
          gone = (Fewer-none n.pending_requests _ idx t.rest absent, t.gone);
          rest = t.rest;
        },
      )
  | inr (tx, there) ↦
      let (done, t) = notify_each_lem limit indices (told tx idx n) low.1 in
      rw there (
        done,
        record {
          sent = (tx, success idx) ∷ t.sent;
          replies = t.replies ∙ append_assoc n.replies ((tx, success idx) ∷ []) t.sent;
          due = ((idx, refl, low.0, there), IsDue-told limit tx idx n t.sent t.due);
          gone = (
            Fewer-none (remove n.pending_requests idx) _ idx t.rest
                (ground (arith, get-remove n.pending_requests idx idx)),
            t.gone,
          );
          rest = λ k tx' kept. Fewer-remove n.pending_requests idx k tx' (t.rest k tx' kept);
        },
      )
]

below_index-low : (limit : ℕ) (ks : List ℕ) → All (λ idx. idx ≤ limit) (below_index limit ks)
below_index-low limit [] = tt
below_index-low limit (k ∷ ks) = elim (Bool-cases (leb k limit)) [
  | inl low ↦ rw low (leb→le k limit low, below_index-low limit ks)
  | inr high ↦ rw high (below_index-low limit ks)
]

-- the loop goes through each index up to the limit that has a request
below_index-All :
    (P : ℕ → Type 0) (limit : ℕ) (m : HashMap ℕ ℕ) (k tx : ℕ)
    → All P (below_index limit (keys m))
    → get m k ≡ some tx
    → k ≤ limit
    → P k
below_index-All P limit [] k tx all there low = absurd cc
below_index-All P limit ((i, v) ∷ m) k tx all there low = elim (Bool-cases (leb i limit)) [
  | inl below ↦
      let seen : P i × All P (below_index limit (keys m)) = rw below at all in
      elim (Bool-cases (i == k)) [
        | inl hit ↦ subst P ((eqb_iff i k).0 hit) seen.0
        | inr miss ↦ below_index-All P limit m k tx seen.1 (rw miss at there) low
      ]
  | inr above ↦
      let seen : All P (below_index limit (keys m)) = rw above at all in
      let miss : (i == k) ≡ false = ground arith in
      below_index-All P limit m k tx seen (rw miss at there) low
]

-- Each client that is told of a success had a request pending at an index up to the one given; and
-- no request up to that index stays.
pub notify_pending_requests-tells :
    (up_to : ℕ) (n : RaftNode)
    → let (r, n') = notify_pending_requests up_to n in
      (r ≡ ok tt)
      × ((sent : List (ℕ × ProposeResult)) × (n'.replies ≡ n.replies ++ sent)
          × All (IsDue n up_to) sent)
      × ((k : ℕ) → k ≤ up_to → get n'.pending_requests k ≡ none)
unfolding notify_pending_requests
notify_pending_requests-tells up_to n =
    let indices = below_index up_to (keys n.pending_requests) in
    let (done, t) =
      notify_each_lem up_to indices n (below_index-low up_to (keys n.pending_requests)) in
    (
      done,
      (t.sent, t.replies, t.due),
      λ k low. elim (Option-cases (get n.pending_requests k)) [
        | inl absent ↦ Fewer-none n.pending_requests _ k t.rest absent
        | inr (tx, there) ↦
            below_index-All (λ i. get (notify_each indices n).1.pending_requests i ≡ none) up_to
              n.pending_requests k tx t.gone there low
      ],
    )
