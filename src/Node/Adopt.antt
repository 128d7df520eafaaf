-- ===== src/Node/Adopt.antt =====
-- The first part of `handle_append_entries`: the leader's term and name.
use raft_ebpf.Prelude.{ℕ, ◌≡◌, some, [], ok, ltb, Bool-cases, inl, inr, arith, if◌then◌else◌}
use raft_ebpf.Common.{Heapless, AppendEntriesRequest, follower}
use raft_ebpf.RaftLog.{current_term, has_entry}
use raft_ebpf.RaftLog.Format.{Json}
use raft_ebpf.RaftLog.Recovery.{IsDurable}
use raft_ebpf.RaftLog.Contiguous.{IsContiguous}
use raft_ebpf.RaftLog.Durable.{with_term, set_current_term_lem, set_current_term-IsDurable}
use raft_ebpf.Node.State.{RaftNode}
use raft_ebpf.Node.Follow.{adopt_leader}

module _ ⦃h : Heapless⦄ ⦃j : Json⦄ where
  abbrev pub term_adopted : ℕ → RaftNode → RaftNode
  term_adopted term n =
      if ltb (current_term n.log) term
      then record n { log = with_term term n.log; role = follower }
      else n

  -- what `adopt_leader` leaves behind
  abbrev pub adopted : AppendEntriesRequest → RaftNode → RaftNode
  adopted req n = record (term_adopted req.term n) {
    last_heartbeat = n.clock;
    leader_id = some req.leader_id;
  }

  pub adopt_leader_lem :
      (req : AppendEntriesRequest) (n : RaftNode)
      → n.log.disk.faults ≡ []
      → adopt_leader req n ≡ (ok tt, adopted req n)
  unfolding adopt_leader
  adopt_leader_lem req n healthy = elim (Bool-cases (ltb (current_term n.log) req.term)) [
    | inl newer ↦ rw (newer, set_current_term_lem req.term n.log healthy)
    | inr same ↦ rw same
  ]

  pub has_entry-adopted :
      (req : AppendEntriesRequest) (n : RaftNode) (index term : ℕ)
      → has_entry index term (adopted req n).log ≡ has_entry index term n.log
  unfolding has_entry
  has_entry-adopted req n index term = elim (Bool-cases (ltb (current_term n.log) req.term)) [
    | inl newer ↦ rw newer
    | inr same ↦ rw same
  ]

  pub log_held-adopted :
      (req : AppendEntriesRequest) (n : RaftNode) → (adopted req n).log_held ≡ n.log_held
  log_held-adopted req n = ground arith

  pub outgoing-adopted :
      (req : AppendEntriesRequest) (n : RaftNode) → (adopted req n).outgoing ≡ n.outgoing
  outgoing-adopted req n = ground arith

  pub IsDurable-adopted :
      (req : AppendEntriesRequest) (n : RaftNode) → IsDurable n.log → IsDurable (adopted req n).log
  IsDurable-adopted req n d = elim (Bool-cases (ltb (current_term n.log) req.term)) [
    | inl newer ↦ rw newer (
        rw (set_current_term_lem req.term n.log d.healthy) at
          (set_current_term-IsDurable req.term n.log d))
    | inr same ↦ rw same d
  ]

  pub IsContiguous-adopted :
      (req : AppendEntriesRequest) (n : RaftNode)
      → IsContiguous n.log
      → IsContiguous (adopted req n).log
  IsContiguous-adopted req n c = elim (Bool-cases (ltb (current_term n.log) req.term)) [
    | inl newer ↦ rw newer (record { no_zero = c.no_zero; present = c.present; beyond = c.beyond })
    | inr same ↦ rw same c
  ]

  pub last_index-adopted :
      (req : AppendEntriesRequest) (n : RaftNode)
      → (adopted req n).log.last_index ≡ n.log.last_index
  last_index-adopted req n = ground arith

  pub commit_index-adopted :
      (req : AppendEntriesRequest) (n : RaftNode) → (adopted req n).commit_index ≡ n.commit_index
  commit_index-adopted req n = ground arith

  pub last_applied-adopted :
      (req : AppendEntriesRequest) (n : RaftNode) → (adopted req n).last_applied ≡ n.last_applied
  last_applied-adopted req n = ground arith
