-- ===== src/HashMap.antt =====
-- `std::collections::HashMap`, as an association list with one entry for each key. The order in
-- which the standard library iterates is not specified; the model iterates in list order.
pub mod Laws
use raft_ebpf.Prelude.{
  ℕ, Bool, true, Option, none, some, List, [], ◌∷◌, map, Eq, ◌==◌, length, if◌then◌else◌,
}

abbrev pub HashMap : Type 0 → Type 0 → Type 0
HashMap K V = List (K × V)

module _ {K V : Type 0} ⦃e : Eq K⦄ where
  abbrev pub get : HashMap K V → K → Option V
  get [] k = none
  get ((j, v) ∷ m) k = if j == k then some v else get m k

  -- the value of a key that is there is replaced in its place
  abbrev pub insert : HashMap K V → K → V → HashMap K V
  insert [] k v = (k, v) ∷ []
  insert ((j, w) ∷ m) k v = if j == k then (j, v) ∷ m else (j, w) ∷ insert m k v

  abbrev pub remove : HashMap K V → K → HashMap K V
  remove [] k = []
  remove ((j, v) ∷ m) k = let rest = remove m k in if j == k then rest else (j, v) ∷ rest

  -- `retain` by a test on the key
  abbrev pub retain : (K → Bool) → HashMap K V → HashMap K V
  retain p [] = []
  retain p ((j, v) ∷ m) = let rest = retain p m in if p j then (j, v) ∷ rest else rest

module _ {K V : Type 0} where
  abbrev pub keys : HashMap K V → List K
  keys = map (λ e. e.0)
