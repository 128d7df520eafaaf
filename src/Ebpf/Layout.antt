-- ===== src/Ebpf/Layout.antt =====
-- The fields of a frame in network byte order, and that `from_be` of what a little-endian machine
-- loads is that field.
use raft_ebpf.Prelude.{
  ℕ, zero, suc, ◌+◌, ◌*◌, ◌/◌, ◌%◌, ◌^◌, ◌<◌, List, [], ◌∷◌, All, eqb, ◌≡◌, arith,
}
use raft_ebpf.Ebpf.Kernel.{byte_at, le16, le32}
use raft_ebpf.Ebpf.Classify.{u16_from_be, u32_from_be}

abbrev pub be16 : List ℕ → ℕ → ℕ
be16 bs i = byte_at bs i * 256 + byte_at bs (i + 1)

abbrev pub be32 : List ℕ → ℕ → ℕ
be32 bs i =
    byte_at bs i * 2 ^ 24
    + byte_at bs (i + 1) * 2 ^ 16
    + byte_at bs (i + 2) * 2 ^ 8
    + byte_at bs (i + 3)

abbrev pub AreBytes : List ℕ → Type 0
AreBytes = All (λ b. b < 256)

pub byte_at-AreBytes : (bs : List ℕ) (i : ℕ) → AreBytes bs → byte_at bs i < 256
byte_at-AreBytes [] i h = omega arith
byte_at-AreBytes (b ∷ bs) zero h = h.0
byte_at-AreBytes (b ∷ bs) (suc i) h = byte_at-AreBytes bs i h.1

swap16 : (a b : ℕ) → a < 256 → b < 256 → u16_from_be (a + 256 * b) ≡ a * 256 + b
swap16 a b ha hb = omega arith

swap32 :
    (a b c d : ℕ)
    → a < 256
    → b < 256
    → c < 256
    → d < 256
    → u32_from_be (a + 2 ^ 8 * b + 2 ^ 16 * c + 2 ^ 24 * d)
      ≡ a * 2 ^ 24 + b * 2 ^ 16 + c * 2 ^ 8 + d
swap32 a b c d ha hb hc hd = omega arith

ether16 : (a b : ℕ) → a < 256 → b < 256 → eqb (a + 256 * b) 8 ≡ eqb (a * 256 + b) 2048
ether16 a b ha hb = ground arith

flags16 : (a b : ℕ) → a < 256 → b < 256 → (a + 256 * b) / 2 ^ 8 % 64 % 256 ≡ b % 64
flags16 a b ha hb = omega arith

module _ (bs : List ℕ) (i : ℕ) (h : AreBytes bs) where
  pub u16_from_be-le16 : u16_from_be (le16 bs i) ≡ be16 bs i
  u16_from_be-le16 =
      swap16 (byte_at bs i) (byte_at bs (i + 1)) (byte_at-AreBytes bs i h)
        (byte_at-AreBytes bs (i + 1) h)

  pub u32_from_be-le32 : u32_from_be (le32 bs i) ≡ be32 bs i
  u32_from_be-le32 =
      swap32 (byte_at bs i) (byte_at bs (i + 1)) (byte_at bs (i + 2)) (byte_at bs (i + 3))
        (byte_at-AreBytes bs i h) (byte_at-AreBytes bs (i + 1) h) (byte_at-AreBytes bs (i + 2) h)
        (byte_at-AreBytes bs (i + 3) h)

  pub eqb-le16 : eqb (le16 bs i) 8 ≡ eqb (be16 bs i) 2048
  eqb-le16 =
      ether16 (byte_at bs i) (byte_at bs (i + 1)) (byte_at-AreBytes bs i h)
        (byte_at-AreBytes bs (i + 1) h)

  pub flags-le16 : le16 bs i / 2 ^ 8 % 64 % 256 ≡ byte_at bs (i + 1) % 64
  flags-le16 =
      flags16 (byte_at bs i) (byte_at bs (i + 1)) (byte_at-AreBytes bs i h)
        (byte_at-AreBytes bs (i + 1) h)
