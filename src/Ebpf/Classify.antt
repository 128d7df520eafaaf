-- ===== src/Ebpf/Classify.antt =====
-- raft-ebpf/src/main.rs: the classifier, with the records of raft-common/src/maps.rs. `info!` only
-- logs and is left out.
use raft_ebpf.Prelude.{
  ℕ, ◌+◌, ◌*◌, ◌/◌, ◌%◌, ◌^◌, Bool, Option, none, some, List, [], ◌∷◌, ◌++◌, eqb, not, ◌&&◌,
  unwrap_or, if◌then◌else◌, next_u64, Exec, pure, or_throw, modify, ◌>>=◌, ◌>>◌, ok, err, blocked,
  Result, unit_error,
}
use raft_ebpf.Ebpf.Kernel.{BpfMap, Packets}

pub record PeerMetadata : Type 0 where
  pub last_seen_ns : ℕ
  pub packet_count : ℕ
  pub last_seq : ℕ

pub record RaftPacketEvent : Type 0 where
  pub src_ip : ℕ
  pub dst_ip : ℕ
  pub src_port : ℕ
  pub dst_port : ℕ
  pub timestamp_ns : ℕ
  pub seq : ℕ
  pub ack : ℕ
  pub flags : ℕ
  pub msg_type : ℕ

abbrev pub raft_port : ℕ
raft_port = 5555

abbrev pub stat_packets_total : ℕ
stat_packets_total = 0

abbrev pub stat_raft_packets : ℕ
stat_raft_packets = 1

abbrev pub stat_errors : ℕ
stat_errors = 2

-- `from_be` on a little-endian machine swaps the bytes
abbrev pub u16_from_be : ℕ → ℕ
u16_from_be n = n % 256 * 256 + n / 256 % 256

abbrev pub u32_from_be : ℕ → ℕ
u32_from_be n =
    n % 256 * 2 ^ 24 + n / 2 ^ 8 % 256 * 2 ^ 16 + n / 2 ^ 16 % 256 * 2 ^ 8 + n / 2 ^ 24 % 256

-- what the kernel's helpers answer during one call: the time, and whether the ring buffer has
-- space for an event
pub record Helpers : Type 0 where
  pub ktime_ns : ℕ
  pub reserves : Bool

-- the static maps; `events` are those that were submitted, the newest last
pub record Maps (peers : BpfMap 16 PeerMetadata) (counters : BpfMap 8 ℕ) : Type 0 where
  pub peer_state : peers.Map
  pub stats : counters.Map
  pub events : List RaftPacketEvent

module _ (counters : BpfMap 8 ℕ) where
  -- `get_ptr_mut` gave a pointer to a counter, or null
  abbrev pub increment : counters.Map → ℕ → Option ℕ → counters.Map
  increment stats key (some n) = counters.set stats key (next_u64 n)
  increment stats key none = unwrap_or (counters.insert stats key 1) stats

  abbrev pub increment_stat : counters.Map → ℕ → counters.Map
  increment_stat stats key = increment stats key (counters.get stats key)

module _ (peers : BpfMap 16 PeerMetadata) where
  -- update the entry that is there, or try to insert one
  abbrev pub update_entry : peers.Map → ℕ → ℕ → ℕ → Option PeerMetadata → peers.Map
  update_entry state src_ip timestamp_ns seq (some existing) = peers.set state src_ip (record {
    last_seen_ns = timestamp_ns;
    packet_count = next_u64 existing.packet_count;
    last_seq = seq;
  })
  update_entry state src_ip timestamp_ns seq none =
      unwrap_or
        (peers.insert state src_ip
          (record { last_seen_ns = timestamp_ns; packet_count = 1; last_seq = seq }))
        state

  abbrev pub update_peer : peers.Map → ℕ → ℕ → ℕ → peers.Map
  update_peer state src_ip timestamp_ns seq =
      update_entry state src_ip timestamp_ns seq (peers.get state src_ip)

module _ (p : Packets) (peers : BpfMap 16 PeerMetadata) (counters : BpfMap 8 ℕ) where
  abbrev pub Program : Type 0 → Type 0
  Program A = Exec (Maps peers counters) A

  abbrev pub count : ℕ → Program (Unit {0})
  count key = modify (λ m. record m { stats = increment_stat counters m.stats key })

  -- the event of a packet
  abbrev pub packet_event : Helpers → p.Ipv4Hdr → p.TcpHdr → RaftPacketEvent
  packet_event helpers ip tcp = record {
    src_ip = u32_from_be (p.src_addr ip);
    dst_ip = u32_from_be (p.dst_addr ip);
    src_port = u16_from_be (p.source tcp);
    dst_port = u16_from_be (p.dest tcp);
    timestamp_ns = helpers.ktime_ns;
    seq = u32_from_be (p.seq tcp);
    ack = u32_from_be (p.ack_seq tcp);
    flags = p.data_offset_reserved_flags tcp / 2 ^ 8 % 64 % 256;
    msg_type = 0;
  }

  -- the part of `try_classify_raft` behind the tests
  unfoldable pub track_packet : Helpers → RaftPacketEvent → Program ℕ
  track_packet helpers event = do
    count stat_raft_packets
    modify (λ m. record m {
      peer_state = update_peer peers m.peer_state event.src_ip event.timestamp_ns event.seq;
    })
    modify
        (λ m. record m { events = if helpers.reserves then m.events ++ event ∷ [] else m.events })
    pure (p.tc_act_pipe)

  unfoldable pub try_classify_raft : Helpers → p.TcContext → Program ℕ
  try_classify_raft helpers ctx = do
    count stat_packets_total
    eth_hdr ← or_throw (p.load_eth ctx 0) unit_error
    if not (p.same_ether_type (p.ether_type eth_hdr) p.ether_type_ipv4)
        then pure p.tc_act_pipe
        else (do
          ipv4_hdr ← or_throw (p.load_ipv4 ctx p.eth_hdr_len) unit_error
          if not (p.same_ip_proto (p.proto ipv4_hdr) p.ip_proto_tcp)
              then pure p.tc_act_pipe
              else (do
                tcp_hdr ←
                    or_throw (p.load_tcp ctx (p.eth_hdr_len + p.version_ihl ipv4_hdr % 16 * 4))
                      unit_error
                if not (eqb (u16_from_be (p.dest tcp_hdr)) raft_port)
                      && not (eqb (u16_from_be (p.source tcp_hdr)) raft_port)
                    then pure p.tc_act_pipe
                    else track_packet helpers (packet_event helpers ipv4_hdr tcp_hdr)))

  abbrev pub recover : Result ℕ → Program ℕ
  recover (ok ret) = pure ret
  recover (err e) = do count stat_errors; pure p.tc_act_pipe
  recover blocked = λ s. (blocked, s)

  -- `classify_raft`: an error is counted, and the packet passes
  unfoldable pub classify_raft : Helpers → p.TcContext → Program ℕ
  unfolding try_classify_raft
  classify_raft helpers ctx m = let (r, m') = try_classify_raft helpers ctx m in recover r m'
