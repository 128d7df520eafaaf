-- ===== src/Network/RoundTrip.antt =====
-- A message that was encoded, decoded again.
use raft_ebpf.Prelude.{
  ℕ, ◌/◌, ◌%◌, ◌^◌, ◌<◌, some, List, [], ◌∷◌, ◌++◌, ok, ◌≡◌, refl, ap, length, length-append, take,
  ltb, arith, false,
}
use raft_ebpf.Common.{MessageEnvelope}
use raft_ebpf.Network.Framing.{Wire, from_be_bytes, drop, frame_of, encode_message, decode_message}

pub be_bytes_lem :
    (n : ℕ)
    → n < 2 ^ 32
    → from_be_bytes (n / 2 ^ 24 % 256) (n / 2 ^ 16 % 256) (n / 2 ^ 8 % 256) (n % 256) ≡ n
be_bytes_lem n small = omega arith

pub take-append : (xs ys : List ℕ) → take (length xs) (xs ++ ys) ≡ xs
take-append [] ys = refl
take-append (x ∷ xs) ys = ap (λ (l : List ℕ). x ∷ l) (take-append xs ys)

pub drop-append : (xs ys : List ℕ) → drop (length xs) (xs ++ ys) ≡ ys
drop-append [] ys = refl
drop-append (x ∷ xs) ys = drop-append xs ys

module _ ⦃w : Wire⦄ where
  -- A message whose JSON is shorter than 2^32 bytes is decoded from its encoding as it was, also
  -- where other bytes follow.
  pub decode-encode_message :
      (envelope : MessageEnvelope) (payload rest : List ℕ)
      → w.to_vec envelope ≡ some payload
      → length payload < 2 ^ 32
      → (encode_message envelope ≡ ok (frame_of payload))
        × (decode_message (frame_of payload ++ rest) ≡ ok envelope)
  unfolding encode_message decode_message
  decode-encode_message envelope payload rest written small =
      let size : length payload % 2 ^ 32 ≡ length payload = omega arith in
      let enough : ltb (length (payload ++ rest)) (length payload) ≡ false =
        ground (arith, length-append payload rest) in
      (
        rw written refl,
        rw
            (
              size,
              be_bytes_lem (length payload) small,
              enough,
              take-append payload rest,
              w.from_slice-to_vec envelope written,
            )
            refl,
      )
