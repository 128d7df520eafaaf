-- ===== src/HashMap/Laws.antt =====
-- The laws of the map, in the form without side conditions.
use raft_ebpf.Prelude.{◌≡◌, refl, Bool, none, some, [], ◌∷◌, Eq, ◌==◌, arith, if◌then◌else◌}
use raft_ebpf.HashMap.{HashMap, get, insert, remove, retain}

module _ {K V : Type 0} ⦃e : Eq K⦄ where
  pub get-insert :
      (m : HashMap K V) (k j : K) (v : V)
      → get (insert m k v) j ≡ (if k == j then some v else get m j)
  get-insert [] k j v = refl
  get-insert ((i, w) ∷ m) k j v =
      ground (arith, e.beq_iff i k, e.beq_iff i j, e.beq_iff k j, get-insert m k j v)

  pub get-remove :
      (m : HashMap K V) (k j : K) → get (remove m k) j ≡ (if k == j then none else get m j)
  get-remove [] k j = ground arith
  get-remove ((i, w) ∷ m) k j =
      ground (arith, e.beq_iff i k, e.beq_iff i j, e.beq_iff k j, get-remove m k j)

  pub get-retain :
      (p : K → Bool) (m : HashMap K V) (j : K)
      → get (retain p m) j ≡ (if p j then get m j else none)
  get-retain p [] j = ground arith
  get-retain p ((i, w) ∷ m) j = ground (arith, e.beq_iff i j, get-retain p m j)
