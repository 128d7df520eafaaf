-- ===== src/Ebpf/Kernel.antt =====
-- The kernel's maps and the crates `aya-ebpf` and `network-types`, which are not part of the
-- repository, as interfaces. The laws are the documented behaviour of BPF hash maps and of
-- `bpf_skb_load_bytes`, and the layout of the header structs, on a little-endian machine
-- (`.cargo/config.toml` builds for `bpfel-unknown-none`).
use raft_ebpf.Prelude.{
  ℕ, zero, suc, ◌+◌, ◌*◌, ◌^◌, ◌≤◌, ◌<◌, Bool, Option, none, some, List, [], ◌∷◌, length, eqb,
  if◌then◌else◌, ◌≡◌,
}

-- a `HashMap<u32, V>` with room for `max_entries` keys
pub record BpfMap (max_entries : ℕ) (V : Type 0) : Type 1 where
  pub Map : Type 0
  pub empty : Map
  pub size : Map → ℕ
  -- what `get_ptr_mut` points to, and a write through that pointer
  pub get : Map → ℕ → Option V
  pub set : Map → ℕ → V → Map
  -- `insert` with no flags; `none` where the call fails
  pub insert : Map → ℕ → V → Option Map
  pub get-empty : (k : ℕ) → get empty k ≡ none
  pub size-empty : size empty ≡ 0
  pub get-set :
      (m : Map) (k j : ℕ) (v w : V)
      → get m k ≡ some w
      → get (set m k v) j ≡ (if eqb k j then some v else get m j)
  pub size-set : (m : Map) (k : ℕ) (v w : V) → get m k ≡ some w → size (set m k v) ≡ size m
  pub get-insert :
      (m n : Map) (k j : ℕ) (v : V)
      → insert m k v ≡ some n
      → get n j ≡ (if eqb k j then some v else get m j)
  pub size-insert :
      (m n : Map) (k : ℕ) (v : V) → get m k ≡ none → insert m k v ≡ some n → size n ≡ suc (size m)
  pub insert_room :
      (m : Map) (k : ℕ) (v : V) → size m < max_entries → (n : Map) × (insert m k v ≡ some n)
  pub insert_full :
      (m : Map) (k : ℕ) (v : V) → get m k ≡ none → max_entries ≤ size m → insert m k v ≡ none

-- the byte at an offset, 0 behind the end
abbrev pub byte_at : List ℕ → ℕ → ℕ
byte_at [] i = 0
byte_at (b ∷ bs) zero = b
byte_at (b ∷ bs) (suc i) = byte_at bs i

-- a field of two or four bytes as a little-endian machine reads it
abbrev pub le16 : List ℕ → ℕ → ℕ
le16 bs i = byte_at bs i + 256 * byte_at bs (i + 1)

abbrev pub le32 : List ℕ → ℕ → ℕ
le32 bs i =
    byte_at bs i
    + 2 ^ 8 * byte_at bs (i + 1)
    + 2 ^ 16 * byte_at bs (i + 2)
    + 2 ^ 24 * byte_at bs (i + 3)

-- `TcContext::load` at the three header types, and the fields that the source reads
pub record Packets : Type 1 where
  pub TcContext : Type 0
  pub EthHdr : Type 0
  pub Ipv4Hdr : Type 0
  pub TcpHdr : Type 0
  pub EtherType : Type 0
  pub IpProto : Type 0
  -- the frame that the context stands for
  pub bytes : TcContext → List ℕ
  pub load_eth : TcContext → ℕ → Option EthHdr
  pub load_ipv4 : TcContext → ℕ → Option Ipv4Hdr
  pub load_tcp : TcContext → ℕ → Option TcpHdr
  -- `EthHdr::LEN`, `EtherType::Ipv4`, `IpProto::Tcp`, `TC_ACT_PIPE` and the derived `PartialEq`s
  pub eth_hdr_len : ℕ
  pub ether_type_ipv4 : EtherType
  pub ip_proto_tcp : IpProto
  pub tc_act_pipe : ℕ
  pub same_ether_type : EtherType → EtherType → Bool
  pub same_ip_proto : IpProto → IpProto → Bool
  pub ether_type : EthHdr → EtherType
  pub version_ihl : Ipv4Hdr → ℕ
  pub proto : Ipv4Hdr → IpProto
  pub src_addr : Ipv4Hdr → ℕ
  pub dst_addr : Ipv4Hdr → ℕ
  pub source : TcpHdr → ℕ
  pub dest : TcpHdr → ℕ
  pub seq : TcpHdr → ℕ
  pub ack_seq : TcpHdr → ℕ
  pub data_offset_reserved_flags : TcpHdr → ℕ

-- What the crates document of these.
pub record Headers (p : Packets) : Type 0 where
  pub eth_hdr_len_lem : p.eth_hdr_len ≡ 14
  pub load_eth_short :
      (c : p.TcContext) (i : ℕ) → length (p.bytes c) < i + 14 → p.load_eth c i ≡ none
  pub load_ipv4_short :
      (c : p.TcContext) (i : ℕ) → length (p.bytes c) < i + 20 → p.load_ipv4 c i ≡ none
  pub load_tcp_short :
      (c : p.TcContext) (i : ℕ) → length (p.bytes c) < i + 20 → p.load_tcp c i ≡ none
  pub load_eth_at :
      (c : p.TcContext) (i : ℕ)
      → i + 14 ≤ length (p.bytes c)
      → (e : p.EthHdr) × (p.load_eth c i ≡ some e)
        × (p.same_ether_type (p.ether_type e) p.ether_type_ipv4 ≡ eqb (le16 (p.bytes c) (i + 12)) 8)
  pub load_ipv4_at :
      (c : p.TcContext) (i : ℕ)
      → i + 20 ≤ length (p.bytes c)
      → (h : p.Ipv4Hdr) × (p.load_ipv4 c i ≡ some h)
        × (p.version_ihl h ≡ byte_at (p.bytes c) i)
        × (p.same_ip_proto (p.proto h) p.ip_proto_tcp ≡ eqb (byte_at (p.bytes c) (i + 9)) 6)
        × (p.src_addr h ≡ le32 (p.bytes c) (i + 12))
        × (p.dst_addr h ≡ le32 (p.bytes c) (i + 16))
  pub load_tcp_at :
      (c : p.TcContext) (i : ℕ)
      → i + 20 ≤ length (p.bytes c)
      → (t : p.TcpHdr) × (p.load_tcp c i ≡ some t)
        × (p.source t ≡ le16 (p.bytes c) i)
        × (p.dest t ≡ le16 (p.bytes c) (i + 2))
        × (p.seq t ≡ le32 (p.bytes c) (i + 4))
        × (p.ack_seq t ≡ le32 (p.bytes c) (i + 8))
        × (p.data_offset_reserved_flags t ≡ le16 (p.bytes c) (i + 12))
