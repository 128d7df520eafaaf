-- ===== src/StateMachine/Messages.antt =====
-- `get_messages`: the values under `_msg:` keys, the newest first.
use mathlib.Core.List.{Perm}
use mathlib.Core.List.Perm as P
use Prim.Native.Char.{code}
use text.Mathlib.Text.{starts_with}
use raft_ebpf.Prelude.{
  ℕ, zero, suc, ◌+◌, ◌-◌, ◌*◌, ◌^◌, ◌≤◌, String, Bool, ◌&&◌, Option, none, some, List, [], ◌∷◌, map,
  ◌≡◌, refl, take, All, leb, leb→le, Bool-cases, inl, inr, arith, if◌then◌else◌,
}
use raft_ebpf.HashMap.{HashMap}
use raft_ebpf.StateMachine.{StateMachine}

-- `serde_json::from_slice` into a JSON value
pub record Values : Type 1 where
  pub Value : Type 0
  pub from_bytes : List ℕ → Option Value

abbrev drop_chars : ℕ → String → String
drop_chars zero s = s
drop_chars (suc n) String.[] = String.[]
drop_chars (suc n) (String.◌∷◌ c s) = drop_chars n s

-- `k.strip_prefix("_msg:")`
abbrev strip_msg : String → Option String
strip_msg k = if starts_with k "_msg:" then some (drop_chars 5 k) else none

abbrev is_digit : ℕ → Bool
is_digit c = leb 48 c && leb c 57

-- the digits of `str::parse::<u128>`, which fails on an overflow
abbrev digits_from : ℕ → String → Option ℕ
digits_from acc String.[] = some acc
digits_from acc (String.◌∷◌ c s) =
    let value = acc * 10 + (code c - 48) in
    let rest = digits_from value s in
    if is_digit (code c) then if leb (2 ^ 128) value then none else rest else none

abbrev parse_digits : String → Option ℕ
parse_digits String.[] = none
parse_digits (String.◌∷◌ c s) = digits_from 0 (String.◌∷◌ c s)

-- a sign `+` may stand in front
abbrev parse_u128 : String → Option ℕ
parse_u128 String.[] = none
parse_u128 (String.◌∷◌ c s) =
    let plain = parse_digits (String.◌∷◌ c s) in
    if leb 43 (code c) && leb (code c) 43 then parse_digits s else plain

module _ ⦃v : Values⦄ where
  abbrev message_of : Option ℕ → Option v.Value → Option (ℕ × v.Value)
  message_of (some timestamp) (some msg) = some (timestamp, msg)
  message_of _ _ = none

  abbrev timestamp_of : Option String → Option ℕ
  timestamp_of none = none
  timestamp_of (some digits) = parse_u128 digits

  abbrev add_found : Option (ℕ × v.Value) → List (ℕ × v.Value) → List (ℕ × v.Value)
  add_found none rest = rest
  add_found (some m) rest = m ∷ rest

  -- `filter` and `filter_map` over the pairs
  abbrev pub found : HashMap String (List ℕ) → List (ℕ × v.Value)
  found [] = []
  found ((k, bytes) ∷ pairs) =
      add_found (message_of (timestamp_of (strip_msg k)) (v.from_bytes bytes)) (found pairs)

  -- `sort_by(|a, b| b.0.cmp(&a.0))`, which is stable
  abbrev insert_newest : ℕ × v.Value → List (ℕ × v.Value) → List (ℕ × v.Value)
  insert_newest x [] = x ∷ []
  insert_newest x (y ∷ ys) =
      let rest = insert_newest x ys in if leb y.0 x.0 then x ∷ y ∷ ys else y ∷ rest

  abbrev sort_newest : List (ℕ × v.Value) → List (ℕ × v.Value)
  sort_newest [] = []
  sort_newest (x ∷ xs) = insert_newest x (sort_newest xs)

  unfoldable pub get_messages : ℕ → StateMachine → List v.Value
  get_messages limit sm = map (λ m. m.1) (take limit (sort_newest (found sm.pairs)))

  -- each is as new as all that follow it
  abbrev pub NewestFirst : List (ℕ × v.Value) → Type 0
  NewestFirst [] = Unit
  NewestFirst (x ∷ xs) = All (λ y. y.0 ≤ x.0) xs × NewestFirst xs

  insert_newest-Perm :
      (x : ℕ × v.Value) (ys : List (ℕ × v.Value)) → Perm (insert_newest x ys) (x ∷ ys)
  insert_newest-Perm x [] = P.refl (x ∷ [])
  insert_newest-Perm x (y ∷ ys) = elim (Bool-cases (leb y.0 x.0)) [
    | inl above ↦ rw above (P.refl (x ∷ y ∷ ys))
    | inr below ↦ rw below (P.trans (P.cons y (insert_newest-Perm x ys)) (P.swap x y ys))
  ]

  sort_newest-Perm : (xs : List (ℕ × v.Value)) → Perm (sort_newest xs) xs
  sort_newest-Perm [] = P.refl []
  sort_newest-Perm (x ∷ xs) =
      P.trans (insert_newest-Perm x (sort_newest xs)) (P.cons x (sort_newest-Perm xs))

  insert_newest-below :
      (bound : ℕ) (x : ℕ × v.Value) (ys : List (ℕ × v.Value))
      → x.0 ≤ bound
      → All (λ y. y.0 ≤ bound) ys
      → All (λ y. y.0 ≤ bound) (insert_newest x ys)
  insert_newest-below bound x [] low all = (low, tt)
  insert_newest-below bound x (y ∷ ys) low all = elim (Bool-cases (leb y.0 x.0)) [
    | inl above ↦ rw above (low, all)
    | inr below ↦ rw below (all.0, insert_newest-below bound x ys low all.1)
  ]

  raise_bound :
      (low high : ℕ) (ys : List (ℕ × v.Value))
      → low ≤ high
      → All (λ y. y.0 ≤ low) ys
      → All (λ y. y.0 ≤ high) ys
  raise_bound low high [] le all = tt
  raise_bound low high (y ∷ ys) le all = (omega (arith, all.0), raise_bound low high ys le all.1)

  insert_newest-NewestFirst :
      (x : ℕ × v.Value) (ys : List (ℕ × v.Value))
      → NewestFirst ys
      → NewestFirst (insert_newest x ys)
  insert_newest-NewestFirst x [] sorted = (tt, tt)
  insert_newest-NewestFirst x (y ∷ ys) sorted = elim (Bool-cases (leb y.0 x.0)) [
    | inl above ↦
        let le = leb→le y.0 x.0 above in rw above ((le, raise_bound y.0 x.0 ys le sorted.0), sorted)
    | inr below ↦
        let lt : x.0 ≤ y.0 = ground arith in
        rw below (insert_newest-below y.0 x ys lt sorted.0, insert_newest-NewestFirst x ys sorted.1)
  ]

  sort_newest-NewestFirst : (xs : List (ℕ × v.Value)) → NewestFirst (sort_newest xs)
  sort_newest-NewestFirst [] = tt
  sort_newest-NewestFirst (x ∷ xs) =
      insert_newest-NewestFirst x (sort_newest xs) (sort_newest-NewestFirst xs)

  -- The messages returned are the values, up to the limit, of an arrangement of all messages of
  -- the store in which each is as new as those that follow it.
  pub get_messages-NewestFirst :
      (limit : ℕ) (sm : StateMachine)
      → (sorted : List (ℕ × v.Value)) × Perm sorted (found sm.pairs)
        × NewestFirst sorted
        × (get_messages limit sm ≡ map (λ m. m.1) (take limit sorted))
  unfolding get_messages
  get_messages-NewestFirst limit sm = (
    sort_newest (found sm.pairs),
    sort_newest-Perm (found sm.pairs),
    sort_newest-NewestFirst (found sm.pairs),
    refl,
  )
