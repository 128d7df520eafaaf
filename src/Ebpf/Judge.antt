-- ===== src/Ebpf/Judge.antt =====
-- The classifier does to the maps what the verdict on the bytes of a frame asks for.
use raft_ebpf.Prelude.{
  ℕ, ◌+◌, ◌*◌, ◌%◌, List, length, ltb, eqb, Bool-cases, ltb→lt, ltb→le, inl, inr, ◌≡◌, refl, ap,
  ◌∙◌, ok,
}
use raft_ebpf.Ebpf.Kernel.{BpfMap, Packets, Headers, byte_at, le16, le32}
use raft_ebpf.Ebpf.Classify.{
  PeerMetadata, RaftPacketEvent, Helpers, Maps, track_packet, try_classify_raft, classify_raft,
  packet_event, raft_port,
}
use raft_ebpf.Ebpf.Layout.{be16, AreBytes, u16_from_be-le16, u32_from_be-le32, eqb-le16, flags-le16}
use raft_ebpf.Ebpf.Verdict.{verdict, tcp_offset, event_of, tracked, counted, judged}

module _ (p : Packets) (peers : BpfMap 16 PeerMetadata) (counters : BpfMap 8 ℕ) where
  packet_event_lem :
      (helpers : Helpers) (bs : List ℕ)
      → AreBytes bs
      → (ip : p.Ipv4Hdr) (t : p.TcpHdr)
      → (p.src_addr ip ≡ le32 bs 26)
        × (p.dst_addr ip ≡ le32 bs 30)
        × (p.source t ≡ le16 bs (tcp_offset bs))
        × (p.dest t ≡ le16 bs (tcp_offset bs + 2))
        × (p.seq t ≡ le32 bs (tcp_offset bs + 4))
        × (p.ack_seq t ≡ le32 bs (tcp_offset bs + 8))
        × (p.data_offset_reserved_flags t ≡ le16 bs (tcp_offset bs + 12))
      → packet_event p peers counters helpers ip t ≡ event_of helpers bs
  packet_event_lem helpers bs are ip t (src, dst, from, to, seq, ack, flags) =
      let o = tcp_offset bs in
      rw
        (
          src,
          dst,
          from,
          to,
          seq,
          ack,
          flags,
          u32_from_be-le32 bs 26 are,
          u32_from_be-le32 bs 30 are,
          u16_from_be-le16 bs o are,
          u16_from_be-le16 bs (o + 2) are,
          u32_from_be-le32 bs (o + 4) are,
          u32_from_be-le32 bs (o + 8) are,
          flags-le16 bs (o + 12) are,
        )
        refl

  track_packet_lem :
      (helpers : Helpers) (event : RaftPacketEvent) (m : Maps peers counters)
      → track_packet p peers counters helpers event m
        ≡ (ok p.tc_act_pipe, tracked peers counters helpers event m)
  unfolding track_packet
  track_packet_lem helpers event m = refl

module _ (p : Packets) (peers : BpfMap 16 PeerMetadata) (counters : BpfMap 8 ℕ)
    (l : Headers p) where
  offset_lem :
      (ip : p.Ipv4Hdr) (bs : List ℕ)
      → p.version_ihl ip ≡ byte_at bs 14
      → p.eth_hdr_len + p.version_ihl ip % 16 * 4 ≡ tcp_offset bs
  offset_lem ip bs ihl =
      ap (λ n. p.eth_hdr_len + n % 16 * 4) ihl
      ∙ ap (λ n. n + byte_at bs 14 % 16 * 4) l.eth_hdr_len_lem

  -- The classifier passes every packet on, and does to the maps what the bytes of the frame ask
  -- for: it counts every packet, counts the frames that are too short as errors, and counts and
  -- tracks those with an IPv4 header, a TCP header behind it and the port 5555.
  pub classify_raft-judges :
      (helpers : Helpers) (ctx : p.TcContext) (m : Maps peers counters)
      → AreBytes (p.bytes ctx)
      → classify_raft p peers counters helpers ctx m
        ≡ (ok p.tc_act_pipe, judged peers counters (verdict (p.bytes ctx)) helpers (p.bytes ctx) m)
  unfolding classify_raft try_classify_raft
  classify_raft-judges helpers ctx m are =
      let bs = p.bytes ctx in
      elim (Bool-cases (ltb (length bs) 14)) [
        | inl short ↦ rw (short, l.load_eth_short ctx 0 (ltb→lt (length bs) 14 short)) refl
        | inr long ↦
            let (e, loaded, is_ipv4) = l.load_eth_at ctx 0 (ltb→le (length bs) 14 long) in
            rw (long, loaded, is_ipv4, eqb-le16 bs 12 are)
              (elim (Bool-cases (eqb (be16 bs 12) 2048)) [
                | inr foreign ↦ rw foreign refl
                | inl ipv4 ↦ rw ipv4 (elim (Bool-cases (ltb (length bs) 34)) [
                  | inl short ↦
                      rw
                        (
                          short,
                          ap (p.load_ipv4 ctx) l.eth_hdr_len_lem
                              ∙ l.load_ipv4_short ctx 14 (ltb→lt (length bs) 34 short),
                        )
                        refl
                  | inr long' ↦
                      let (ip, loaded_ip, ihl, is_tcp, src, dst) =
                        l.load_ipv4_at ctx 14 (ltb→le (length bs) 34 long') in
                      rw (long', ap (p.load_ipv4 ctx) l.eth_hdr_len_lem ∙ loaded_ip, is_tcp)
                        (elim (Bool-cases (eqb (byte_at bs 23) 6)) [
                          | inr foreign ↦ rw foreign refl
                          | inl tcp ↦
                              rw tcp (elim (Bool-cases (ltb (length bs) (tcp_offset bs + 20))) [
                                | inl short ↦
                                    rw
                                      (
                                        short,
                                        ap (p.load_tcp ctx) (offset_lem ip bs ihl)
                                            ∙ l.load_tcp_short ctx (tcp_offset bs)
                                                (ltb→lt (length bs) (tcp_offset bs + 20) short),
                                      )
                                      refl
                                | inr long'' ↦
                                    let (t, loaded_tcp, from, to, seq, ack, flags) =
                                      l.load_tcp_at ctx (tcp_offset bs)
                                        (ltb→le (length bs) (tcp_offset bs + 20) long'') in
                                    rw
                                      (
                                        long'',
                                        ap (p.load_tcp ctx) (offset_lem ip bs ihl) ∙ loaded_tcp,
                                        packet_event_lem p peers counters helpers bs are ip t
                                            (src, dst, from, to, seq, ack, flags),
                                        from,
                                        to,
                                        u16_from_be-le16 bs (tcp_offset bs) are,
                                        u16_from_be-le16 bs (tcp_offset bs + 2) are,
                                      )
                                      (elim (Bool-cases
                                        (eqb (be16 bs (tcp_offset bs + 2)) raft_port)) [
                                          | inl ours ↦
                                              rw
                                                (
                                                  ours,
                                                  track_packet_lem p peers counters helpers
                                                      (event_of helpers bs)
                                                      (counted peers counters 0 m),
                                                )
                                                refl
                                          | inr foreign ↦
                                              rw foreign
                                                (elim (Bool-cases
                                                  (eqb (be16 bs (tcp_offset bs)) raft_port)) [
                                                    | inl ours ↦
                                                        rw
                                                          (
                                                            ours,
                                                            track_packet_lem p peers counters
                                                            helpers (event_of helpers bs)
                                                            (counted peers counters 0 m),
                                                          )
                                                          refl
                                                    | inr foreign' ↦ rw foreign' refl
                                                  ])
                                        ])
                              ])
                        ])
                ])
              ])
      ]
