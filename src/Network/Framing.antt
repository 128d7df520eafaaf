-- ===== src/Network/Framing.antt =====
-- `encode_message` and `decode_message`: a length of four bytes, the highest first, and the payload.
-- A byte is a number; the source's `Vec<u8>` and `BytesMut` are lists of them.
use raft_ebpf.Prelude.{
  ℕ, zero, suc, ◌+◌, ◌*◌, ◌/◌, ◌%◌, ◌^◌, Option, none, some, List, [], ◌∷◌, ◌++◌, Result, ok, err,
  json, message_too_short, incomplete_message, ◌≡◌, length, take, ltb, if◌then◌else◌,
}
use raft_ebpf.Common.{MessageEnvelope}

-- The calls of serde_json on an envelope: what it writes it reads again.
pub record Wire : Type 0 where
  pub to_vec : MessageEnvelope → Option (List ℕ)
  pub from_slice : List ℕ → Option MessageEnvelope
  pub from_slice-to_vec :
      (e : MessageEnvelope) {b : List ℕ} → to_vec e ≡ some b → from_slice b ≡ some e

-- `u32::to_be_bytes`
abbrev pub to_be_bytes : ℕ → List ℕ
to_be_bytes n = n / 2 ^ 24 % 256 ∷ n / 2 ^ 16 % 256 ∷ n / 2 ^ 8 % 256 ∷ n % 256 ∷ []

-- `u32::from_be_bytes`
abbrev pub from_be_bytes : ℕ → ℕ → ℕ → ℕ → ℕ
from_be_bytes a b c d = a * 2 ^ 24 + b * 2 ^ 16 + c * 2 ^ 8 + d

abbrev pub drop : ℕ → List ℕ → List ℕ
drop zero xs = xs
drop (suc n) [] = []
drop (suc n) (x ∷ xs) = drop n xs

-- `(payload.len() as u32).to_be_bytes()` in front of the payload
abbrev pub frame_of : List ℕ → List ℕ
frame_of payload = to_be_bytes (length payload % 2 ^ 32) ++ payload

module _ ⦃w : Wire⦄ where
  abbrev encoded : Option (List ℕ) → Result (List ℕ)
  encoded none = err json
  encoded (some payload) = ok (frame_of payload)

  unfoldable pub encode_message : MessageEnvelope → Result (List ℕ)
  encode_message envelope = encoded (w.to_vec envelope)

  abbrev parsed : Option MessageEnvelope → Result MessageEnvelope
  parsed none = err json
  parsed (some envelope) = ok envelope

  abbrev decode_body : ℕ → List ℕ → Result MessageEnvelope
  decode_body size rest =
      if ltb (length rest) size
      then err incomplete_message
      else parsed (w.from_slice (take size rest))

  unfoldable pub decode_message : List ℕ → Result MessageEnvelope
  decode_message (a ∷ b ∷ c ∷ d ∷ rest) = decode_body (from_be_bytes a b c d) rest
  decode_message _ = err message_too_short
