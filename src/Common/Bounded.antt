-- ===== src/Common/Bounded.antt =====
-- The crate `heapless`, which is not part of the repository, as an interface. The source always
-- discards the result of a push (`let _ = …`), so a push is a function to the new contents.
use raft_ebpf.Prelude.{
  ℕ, ◌+◌, ◌≤◌, ◌<◌, String, len, ◌+++◌, ◌≡◌, sym, ◌∙◌, List, [], ◌∷◌, ◌++◌, length, length-append,
  arith,
}
use mathlib.Core.List.{append_assoc, append-nil}
use text.Mathlib.TextLemmas.{nil-append}

pub record Heapless : Type 0 where
  -- `String<N>::push_str` on contents
  pub push_str : ℕ → String → String → String
  pub push_str_fits : (n : ℕ) (s t : String) → len s + len t ≤ n → push_str n s t ≡ s +++ t
  pub push_str_full : (n : ℕ) (s t : String) → n < len s + len t → push_str n s t ≡ s
  -- `Vec<u8, N>::push` on contents
  pub push : ℕ → List ℕ → ℕ → List ℕ
  pub push_fits : (n : ℕ) (v : List ℕ) (b : ℕ) → length v < n → push n v b ≡ v ++ b ∷ []
  pub push_full : (n : ℕ) (v : List ℕ) (b : ℕ) → n ≤ length v → push n v b ≡ v

module _ ⦃h : Heapless⦄ where
  -- `let mut hs = heapless::String::new(); let _ = hs.push_str(s);`
  abbrev pub string_of : ℕ → String → String
  string_of n s = h.push_str n "" s

  -- `for b in value { let _ = value_vec.push(b); }`
  abbrev pub push_all : ℕ → List ℕ → List ℕ → List ℕ
  push_all n v [] = v
  push_all n v (b ∷ bs) = push_all n (h.push n v b) bs

  abbrev pub vec_of : ℕ → List ℕ → List ℕ
  vec_of n bs = push_all n [] bs

  -- A text within the capacity is kept as it is.
  pub string_of_fits : (n : ℕ) (s : String) → len s ≤ n → string_of n s ≡ s
  string_of_fits n s fits = h.push_str_fits n "" s (omega arith) ∙ nil-append s

  push_all_fits : (n : ℕ) (v bs : List ℕ) → length v + length bs ≤ n → push_all n v bs ≡ v ++ bs
  push_all_fits n v [] fits = sym (append-nil v)
  push_all_fits n v (b ∷ bs) fits = rw (h.push_fits n v b (omega arith)) (
      push_all_fits n (v ++ b ∷ []) bs (omega (arith, length-append v (b ∷ [])))
      ∙ append_assoc v (b ∷ []) bs)

  -- Bytes within the capacity are kept as they are.
  pub vec_of_fits : (n : ℕ) (bs : List ℕ) → length bs ≤ n → vec_of n bs ≡ bs
  vec_of_fits n bs fits = push_all_fits n [] bs (omega arith)
