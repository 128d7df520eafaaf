-- ===== src/Node/Counting.antt =====
-- The votes that a candidate has counted: a list without repetition.
use mathlib.Core.Logic.{∥∥₁_elim}
use mathlib.Core.List.{
  Mem, Mem-prop, mem-cons, mem-cons_self, mem-cons_of_mem, not-mem-nil, Nodup, Nodup-cons,
  perm_append_singleton,
}
use mathlib.Core.List.Perm
use raft_ebpf.Prelude.{
  String, text_eq, ◌==◌, true, false, List, [], ◌∷◌, ◌≡◌, ◌↔◌, sym, Bool-cases, inl, inr, arith,
}
use mathlib.Core.Path.{subst}
use raft_ebpf.Common.{Heapless}
use raft_ebpf.RaftLog.Format.{Json}
use raft_ebpf.Node.State.{RaftNode}
use raft_ebpf.Node.Elect.{contains, count_vote}

contains-mem : (xs : List String) (s : String) → contains xs s ≡ true → Mem s xs
contains-mem [] s there = absurd (ground (arith, there))
contains-mem (x ∷ xs) s there = elim (Bool-cases (x == s)) [
  | inl is ↦ subst (λ y. Mem y (x ∷ xs)) ((text_eq.beq_iff x s).0 is) mem-cons_self
  | inr other ↦ mem-cons_of_mem x (contains-mem xs s (ground (arith, there, other)))
]

not-mem_of_contains : (xs : List String) (s : String) → contains xs s ≡ false → ¬ Mem s xs
not-mem_of_contains [] s absent m = not-mem-nil m
not-mem_of_contains (x ∷ xs) s absent m =
    ∥∥₁_elim (mem-cons.0 m) (λ a b. absurd a)
      λ c. elim c [
        | inl is ↦
            let same : (x == s) ≡ true = (text_eq.beq_iff x s).1 (sym is) in
            absurd (ground (arith, same, absent))
        | inr later ↦ not-mem_of_contains xs s (ground (arith, absent)) later
      ]

module _ ⦃h : Heapless⦄ ⦃j : Json⦄ where
  pub count_vote-Nodup :
      (from : String) (n : RaftNode)
      → Nodup n.votes_received
      → Nodup (count_vote from n).votes_received
  count_vote-Nodup from n once = elim (Bool-cases (contains n.votes_received from)) [
    | inl before ↦ rw before once
    | inr new ↦ rw new (
        Perm.nodup (Perm.symm (perm_append_singleton from n.votes_received))
          (Nodup-cons.1 (not-mem_of_contains n.votes_received from new, once)))
  ]

  pub mem-count_vote :
      (from : String) (n : RaftNode) (voter : String)
      → Mem voter (count_vote from n).votes_received ↔ Mem voter (from ∷ n.votes_received)
  mem-count_vote from n voter = elim (Bool-cases (contains n.votes_received from)) [
    | inl before ↦ rw before (
      mem-cons_of_mem from,
      λ m. ∥∥₁_elim (mem-cons.0 m) Mem-prop λ c. elim c [
        | inl is ↦
            subst (λ y. Mem y n.votes_received) (sym is) (contains-mem n.votes_received from before)
        | inr there ↦ there
      ],
    )
    | inr new ↦ rw new (Perm.mem_iff (perm_append_singleton from n.votes_received))
  ]
