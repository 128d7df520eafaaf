-- ===== src/Ebpf/Verdict.antt =====
-- What the classifier is to make of a frame, read off its bytes as the protocols lay them out.
use raft_ebpf.Prelude.{
  ℕ, ◌+◌, ◌*◌, ◌%◌, List, ◌∷◌, [], ◌++◌, length, ltb, eqb, not, ◌&&◌, if◌then◌else◌,
}
use raft_ebpf.Ebpf.Kernel.{BpfMap, byte_at}
use raft_ebpf.Ebpf.Classify.{
  PeerMetadata, RaftPacketEvent, Helpers, Maps, increment_stat, update_peer, raft_port,
}
use raft_ebpf.Ebpf.Layout.{be16, be32}

pub data Verdict : Type 0 where
  -- too short for the headers that it announces
  malformed : Verdict
  -- whole, but not of the protocol
  other : Verdict
  raft : Verdict

-- the TCP header stands behind 14 bytes of Ethernet and the IPv4 header's own length
abbrev pub tcp_offset : List ℕ → ℕ
tcp_offset bs = 14 + byte_at bs 14 % 16 * 4

abbrev pub verdict : List ℕ → Verdict
verdict bs =
    if ltb (length bs) 14
    then malformed
    else if not (eqb (be16 bs 12) 2048)
    then other
    else if ltb (length bs) 34
    then malformed
    else if not (eqb (byte_at bs 23) 6)
    then other
    else if ltb (length bs) (tcp_offset bs + 20)
    then malformed
    else if not (eqb (be16 bs (tcp_offset bs + 2)) raft_port)
        && not (eqb (be16 bs (tcp_offset bs)) raft_port)
    then other
    else raft

abbrev pub event_of : Helpers → List ℕ → RaftPacketEvent
event_of helpers bs = record {
  src_ip = be32 bs 26;
  dst_ip = be32 bs 30;
  src_port = be16 bs (tcp_offset bs);
  dst_port = be16 bs (tcp_offset bs + 2);
  timestamp_ns = helpers.ktime_ns;
  seq = be32 bs (tcp_offset bs + 4);
  ack = be32 bs (tcp_offset bs + 8);
  flags = byte_at bs (tcp_offset bs + 12 + 1) % 64;
  msg_type = 0;
}

module _ (peers : BpfMap 16 PeerMetadata) (counters : BpfMap 8 ℕ) where
  abbrev pub tracked : Helpers → RaftPacketEvent → Maps peers counters → Maps peers counters
  tracked helpers event m = record {
    peer_state = update_peer peers m.peer_state event.src_ip event.timestamp_ns event.seq;
    stats = increment_stat counters m.stats 1;
    events = if helpers.reserves then m.events ++ event ∷ [] else m.events;
  }

  abbrev pub counted : ℕ → Maps peers counters → Maps peers counters
  counted key m = record m { stats = increment_stat counters m.stats key }

  abbrev pub judged : Verdict → Helpers → List ℕ → Maps peers counters → Maps peers counters
  judged malformed helpers bs m = counted 2 (counted 0 m)
  judged other helpers bs m = counted 0 m
  judged raft helpers bs m = tracked helpers (event_of helpers bs) (counted 0 m)
