-- ===== src/Tests/EbpfRuns.antt =====
-- The theorems on the eBPF program, applied to frames. The kernel's maps are association lists with
-- a limit, a context is its bytes, and a header is the bytes from where it stands.
use raft_ebpf.Prelude.{
  ℕ, suc, ◌+◌, ◌<◌, ◌≤◌, ◌%◌, true, Option, none, some, Bool-cases, All, inl, inr, List, [], ◌∷◌,
  length, ltb, eqb, is_some, number_eq, u64_mod, if◌then◌else◌, ok, ◌≡◌, refl, arith,
}
use raft_ebpf.HashMap.{HashMap, get, insert}
use raft_ebpf.HashMap.Laws.{get-insert}
use raft_ebpf.Ebpf.Kernel.{BpfMap, Packets, Headers, byte_at, le16, le32}
use raft_ebpf.Ebpf.Classify.{PeerMetadata, Helpers, Maps, track_packet, classify_raft}
use raft_ebpf.Ebpf.Layout.{AreBytes}
use raft_ebpf.Ebpf.Verdict.{raft, verdict, judged}
use raft_ebpf.Ebpf.Judge.{classify_raft-judges}
use raft_ebpf.Ebpf.Counters.{stat}
use raft_ebpf.Ebpf.Traffic.{sent}
use raft_ebpf.Ebpf.Runs.{no_packets, frames_of, classify_each, classify_each-counts}

module _ {V : Type 0} where
  abbrev bounded_insert : ℕ → HashMap ℕ V → ℕ → V → Option (HashMap ℕ V)
  bounded_insert max m k v =
      if is_some (get m k)
      then some (insert m k v)
      else if ltb (length m) max
      then some (insert m k v)
      else none

  length-insert_there :
      (m : HashMap ℕ V) (k : ℕ) (v w : V) → get m k ≡ some w → length (insert m k v) ≡ length m
  length-insert_there [] k v w h = absurd cc
  length-insert_there ((j, u) ∷ m) k v w h = ground (arith, length-insert_there m k v w)

  length-insert_new :
      (m : HashMap ℕ V) (k : ℕ) (v : V) → get m k ≡ none → length (insert m k v) ≡ suc (length m)
  length-insert_new [] k v h = refl
  length-insert_new ((j, u) ∷ m) k v h = ground (arith, length-insert_new m k v)

  bounded_insert_got :
      (max : ℕ) (m n : HashMap ℕ V) (k : ℕ) (v : V)
      → bounded_insert max m k v ≡ some n
      → n ≡ insert m k v
  bounded_insert_got max m n k v h = elim (Bool-cases (is_some (get m k))) [
    | inl there ↦ ground arith
    | inr missing ↦ ground arith
  ]

module _ (max : ℕ) (V : Type 0) where
  bounded_get-insert :
      (m n : HashMap ℕ V) (k j : ℕ) (v : V)
      → bounded_insert max m k v ≡ some n
      → get n j ≡ (if eqb k j then some v else get m j)
  bounded_get-insert m n k j v h = rw (bounded_insert_got max m n k v h) (get-insert m k j v)

  bounded_size-insert :
      (m n : HashMap ℕ V) (k : ℕ) (v : V)
      → get m k ≡ none
      → bounded_insert max m k v ≡ some n
      → length n ≡ suc (length m)
  bounded_size-insert m n k v new h =
      rw (bounded_insert_got max m n k v h) (length-insert_new m k v new)

  bounded_insert_room :
      (m : HashMap ℕ V) (k : ℕ) (v : V)
      → length m < max
      → (n : HashMap ℕ V) × (bounded_insert max m k v ≡ some n)
  bounded_insert_room m k v room = (insert m k v, ground arith)

  bounded_insert_full :
      (m : HashMap ℕ V) (k : ℕ) (v : V)
      → get m k ≡ none
      → max ≤ length m
      → bounded_insert max m k v ≡ none
  bounded_insert_full m k v new full = rw new (ground arith)

  abbrev bounded_map : BpfMap max V
  bounded_map = record {
    Map = HashMap ℕ V;
    empty = [];
    size = length;
    get = get;
    set = insert;
    insert = bounded_insert max;
    get-empty = λ k. refl;
    size-empty = refl;
    get-set = λ m k j v w there. get-insert m k j v;
    size-set = length-insert_there;
    get-insert = bounded_get-insert;
    size-insert = bounded_size-insert;
    insert_room = bounded_insert_room;
    insert_full = bounded_insert_full;
  }

-- a header is the frame with the place where it stands
abbrev Placed : Type 0
Placed = List ℕ × ℕ

abbrev load_header : ℕ → List ℕ → ℕ → Option Placed
load_header size bs i = if ltb (length bs) (i + size) then none else some (bs, i)

load_short : (size : ℕ) (bs : List ℕ) (i : ℕ) → length bs < i + size → load_header size bs i ≡ none
load_short size bs i h = ground arith

load_at :
    (size : ℕ) (bs : List ℕ) (i : ℕ) → i + size ≤ length bs → load_header size bs i ≡ some (bs, i)
load_at size bs i h = ground arith

abbrev placed : Packets
placed = record {
  TcContext = List ℕ;
  EthHdr = Placed;
  Ipv4Hdr = Placed;
  TcpHdr = Placed;
  EtherType = ℕ;
  IpProto = ℕ;
  bytes = λ bs. bs;
  load_eth = load_header 14;
  load_ipv4 = load_header 20;
  load_tcp = load_header 20;
  eth_hdr_len = 14;
  ether_type_ipv4 = 8;
  ip_proto_tcp = 6;
  tc_act_pipe = 3;
  same_ether_type = eqb;
  same_ip_proto = eqb;
  ether_type = λ (bs, i). le16 bs (i + 12);
  version_ihl = λ (bs, i). byte_at bs i;
  proto = λ (bs, i). byte_at bs (i + 9);
  src_addr = λ (bs, i). le32 bs (i + 12);
  dst_addr = λ (bs, i). le32 bs (i + 16);
  source = λ (bs, i). le16 bs i;
  dest = λ (bs, i). le16 bs (i + 2);
  seq = λ (bs, i). le32 bs (i + 4);
  ack_seq = λ (bs, i). le32 bs (i + 8);
  data_offset_reserved_flags = λ (bs, i). le16 bs (i + 12);
}

placed-Headers : Headers placed
placed-Headers = record {
  eth_hdr_len_lem = refl;
  load_eth_short = load_short 14;
  load_ipv4_short = load_short 20;
  load_tcp_short = load_short 20;
  load_eth_at = λ bs i h. ((bs, i), load_at 14 bs i h, refl);
  load_ipv4_at = λ bs i h. ((bs, i), load_at 20 bs i h, refl, refl, refl, refl);
  load_tcp_at = λ bs i h. ((bs, i), load_at 20 bs i h, refl, refl, refl, refl, refl);
}

-- 10.0.0.2:5555 answers 10.0.0.1:40000, with the sequence number 9 and the flags PSH and ACK
abbrev answer_frame : List ℕ
answer_frame =
    1 ∷ 2 ∷ 3 ∷ 4 ∷ 5 ∷ 6 ∷ 7 ∷ 8 ∷ 9 ∷ 10 ∷ 11 ∷ 12 ∷ 8 ∷ 0 ∷ 69 ∷ 0 ∷ 0 ∷ 40 ∷ 0 ∷ 0 ∷ 0 ∷ 0 ∷ 64
    ∷ 6 ∷ 0 ∷ 0 ∷ 10 ∷ 0 ∷ 0 ∷ 2 ∷ 10 ∷ 0 ∷ 0 ∷ 1 ∷ 21 ∷ 179 ∷ 156 ∷ 64 ∷ 0 ∷ 0 ∷ 0 ∷ 9 ∷ 0 ∷ 0 ∷ 0
    ∷ 4 ∷ 80 ∷ 24 ∷ 0 ∷ 0 ∷ 0 ∷ 0 ∷ 0 ∷ 0 ∷ []

-- ARP, and a frame of IPv4 that ends after the Ethernet header
abbrev arp_frame : List ℕ
arp_frame = 1 ∷ 2 ∷ 3 ∷ 4 ∷ 5 ∷ 6 ∷ 7 ∷ 8 ∷ 9 ∷ 10 ∷ 11 ∷ 12 ∷ 8 ∷ 6 ∷ 0 ∷ []

abbrev short_frame : List ℕ
short_frame = 1 ∷ 2 ∷ 3 ∷ 4 ∷ 5 ∷ 6 ∷ 7 ∷ 8 ∷ 9 ∷ 10 ∷ 11 ∷ 12 ∷ 8 ∷ 0 ∷ 69 ∷ []

answer_frame-AreBytes : AreBytes answer_frame
answer_frame-AreBytes = omega arith

arp_frame-AreBytes : AreBytes arp_frame
arp_frame-AreBytes = omega arith

short_frame-AreBytes : AreBytes short_frame
short_frame-AreBytes = omega arith

abbrev at_time : ℕ → Helpers
at_time now = record { ktime_ns = now; reserves = true }

abbrev packets : List (Helpers × List ℕ)
packets =
    (at_time 7, answer_frame)
    ∷ (at_time 8, arp_frame)
    ∷ (at_time 9, short_frame)
    ∷ (at_time 10, answer_frame)
    ∷ []

packets-AreBytes : All (λ q. AreBytes q.1) packets
packets-AreBytes = (
  answer_frame-AreBytes,
  (arp_frame-AreBytes, (short_frame-AreBytes, (answer_frame-AreBytes, tt))),
)

abbrev peers : BpfMap 16 PeerMetadata
peers = bounded_map 16 PeerMetadata

abbrev counters : BpfMap 8 ℕ
counters = bounded_map 8 ℕ

abbrev known : PeerMetadata
known = record { last_seen_ns = 5; packet_count = 3; last_seq = 1 }

abbrev one_peer : Maps peers counters
one_peer = record { peer_state = (167772162, known) ∷ []; stats = []; events = [] }

answer_verdict : verdict answer_frame ≡ raft
answer_verdict = refl

stats_of_packets :
    (classify_each placed peers counters packets one_peer).1.stats ≡ (0, 4) ∷ (1, 2) ∷ (2, 1) ∷ []
unfolding classify_each track_packet
stats_of_packets = refl

classify_raft-judges_example :
    classify_raft placed peers counters (at_time 7) answer_frame one_peer
    ≡ (ok 3, judged peers counters raft (at_time 7) answer_frame one_peer)
classify_raft-judges_example =
    classify_raft-judges placed peers counters placed-Headers (at_time 7) answer_frame one_peer
      answer_frame-AreBytes

classify_each-counts_example :
    let frames = frames_of placed peers counters packets in
    let (r, m) = classify_each placed peers counters packets (no_packets placed peers counters) in
    (r ≡ ok (3 ∷ 3 ∷ 3 ∷ 3 ∷ []))
    × (stat counters m.stats 0 ≡ 4 % u64_mod)
    × (stat counters m.stats 1 ≡ 2 % u64_mod)
    × (stat counters m.stats 2 ≡ 1 % u64_mod)
    × (m.events ≡ sent frames)
    × (length m.peer_state ≤ 16)
classify_each-counts_example =
    classify_each-counts placed peers counters placed-Headers packets packets-AreBytes
