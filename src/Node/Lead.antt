-- ===== src/Node/Lead.antt =====
-- `send_heartbeats` and `become_leader`: what a leader sends, and what it starts from.
use raft_ebpf.Prelude.{
  ℕ, ◌+◌, ◌<◌, String, text_eq, true, false, ◌≡◌, refl, sym, ap, ◌∙◌, some, List, [], ◌∷◌, ◌++◌,
  map, ok, next_u64, next_u64_lem, u64_mod, if◌then◌else◌, arith,
}
use mathlib.Core.List.{append_assoc, append-nil}
use raft_ebpf.HashMap.{HashMap, get, insert, keys}
use raft_ebpf.HashMap.Laws.{get-insert}
use raft_ebpf.Common.{
  Heapless, NodeRole, same_role, leader, append_entries, new_envelope, MessageEnvelope,
}
use raft_ebpf.RaftLog.Format.{Json}
use raft_ebpf.Node.State.{RaftNode, with_log_run}
use raft_ebpf.Node.Heartbeat.{request_for, send_each, send_heartbeats}
use raft_ebpf.Node.Elect.{contains, reset_progress, become_leader}

-- the maps of progress after the loop over the peers
abbrev pub set_all : {V : Type 0} → List String → V → HashMap String V → HashMap String V
set_all [] v m = m
set_all (p ∷ ps) v m = set_all ps v (insert m p v)

get-set_all :
    {V : Type 0} (ps : List String) (v : V) (m : HashMap String V) (k : String)
    → get (set_all ps v m) k ≡ (if contains ps k then some v else get m k)
get-set_all [] v m k = refl
get-set_all (p ∷ ps) v m k = get-set_all ps v (insert m p v) k ∙ ground (arith, get-insert m p k v)

reset_progress_lem :
    (next : ℕ) (ps : List String) (n : RaftNode)
    → reset_progress next ps n ≡ record n {
      next_index = set_all ps next n.next_index;
      match_index = set_all ps 0 n.match_index;
    }
unfolding reset_progress
reset_progress_lem next [] n = refl
reset_progress_lem next (p ∷ ps) n = reset_progress_lem next ps _

module _ ⦃h : Heapless⦄ where
  -- the envelope for one peer
  abbrev pub heartbeat : RaftNode → String → MessageEnvelope
  heartbeat n peer_id = new_envelope n.node_id peer_id (append_entries (request_for n peer_id))

  send_each_lem :
      (ps : List String) (n : RaftNode)
      → send_each ps n ≡ (ok tt, record n { outgoing = n.outgoing ++ map (heartbeat n) ps })
  unfolding send_each request_for
  send_each_lem [] n =
      ap (λ (o : List MessageEnvelope). (ok tt, record n { outgoing = o }))
        (sym (append-nil n.outgoing))
  send_each_lem (p ∷ ps) n =
      send_each_lem ps (record n { outgoing = n.outgoing ++ heartbeat n p ∷ [] })
      ∙ ap (λ (o : List MessageEnvelope). (ok tt, record n { outgoing = o }))
          (append_assoc n.outgoing (heartbeat n p ∷ []) (map (heartbeat n) ps))

  pub send_heartbeats_lem :
      (n : RaftNode)
      → n.log_held ≡ false
      → n.role ≡ leader
      → send_heartbeats n ≡ (
        ok tt,
        record n { log_held = false; outgoing = n.outgoing ++ map (heartbeat n) (keys n.peers) },
      )
  unfolding send_heartbeats request_for
  send_heartbeats_lem n free lead =
      let is_leader : same_role n.role leader ≡ true =
        ap (λ (r : NodeRole). same_role r leader) lead in
      rw
        (
          is_leader,
          with_log_run (send_each (keys n.peers)) n free
              (send_each_lem (keys n.peers) (record n { log_held = true })),
        )
        refl

  -- the node that starts to lead
  abbrev pub leading : RaftNode → RaftNode
  leading n = record n {
    role = leader;
    leader_id = some n.node_id;
    log_held = false;
    next_index = set_all (keys n.peers) (next_u64 n.log.last_index) n.next_index;
    match_index = set_all (keys n.peers) 0 n.match_index;
  }

module _ ⦃h : Heapless⦄ ⦃j : Json⦄ where
  pub become_leader_lem :
      (n : RaftNode)
      → n.log_held ≡ false
      → become_leader n ≡ (
        ok tt,
        record (leading n) { outgoing = n.outgoing ++ map (heartbeat (leading n)) (keys n.peers) },
      )
  unfolding become_leader request_for
  become_leader_lem n free =
      rw (free, reset_progress_lem (next_u64 n.log.last_index) (keys n.peers) _)
        (send_heartbeats_lem (leading n) refl refl)

  -- A node that wins an election, with the log's mutex free and its last index below 2^64 - 1,
  -- leads: each peer that it knows is to be sent the entry after its last, none is known to hold
  -- anything, and each is sent one AppendEntries, in the order of the map.
  pub become_leader-leads :
      (n : RaftNode)
      → n.log_held ≡ false
      → n.log.last_index + 1 < u64_mod
      → let (r, n') = become_leader n in
        (r ≡ ok tt)
        × (n'.role ≡ leader)
        × (n'.leader_id ≡ some n.node_id)
        × ((p : String)
            → contains (keys n.peers) p ≡ true
            → (get n'.next_index p ≡ some (n.log.last_index + 1)) × (get n'.match_index p ≡ some 0))
        × (n'.outgoing ≡ n.outgoing ++ map (heartbeat n') (keys n.peers))
  unfolding request_for
  become_leader-leads n free room =
      rw (become_leader_lem n free, next_u64_lem n.log.last_index room)
        (
          refl,
          refl,
          refl,
          (λ p known. (
            get-set_all (keys n.peers) (n.log.last_index + 1) n.next_index p ∙ rw known refl,
            get-set_all (keys n.peers) 0 n.match_index p ∙ rw known refl,
          )),
          refl,
        )
