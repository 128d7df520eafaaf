-- ===== src/Ebpf/Bounds.antt =====
-- The entries of peers: how many there can be, and what becomes of an entry that is there.
use raft_ebpf.Prelude.{
  ℕ, ◌≤◌, true, some, Option-cases, Bool-cases, inl, inr, List, [], ◌∷◌, eqb, eqb_iff, ltb, ltb→lt,
  ltb→le, ◌&&◌, if◌then◌else◌, next_u64, ◌≡◌, refl, ◌∙◌, arith,
}
use raft_ebpf.Ebpf.Kernel.{BpfMap}
use raft_ebpf.Ebpf.Classify.{PeerMetadata, Helpers, Maps, RaftPacketEvent, update_peer}
use raft_ebpf.Ebpf.Layout.{be32}
use raft_ebpf.Ebpf.Verdict.{Verdict, malformed, other, raft, verdict, event_of, judged}
use raft_ebpf.Ebpf.Traffic.{Frames, is_raft, is_from, updated, followed, judged_each}

eqb-same : (k : ℕ) → eqb k k ≡ true
eqb-same k = (eqb_iff k k).1 refl

module _ (peers : BpfMap 16 PeerMetadata) where
  update_peer-size :
      (state : peers.Map) (src_ip now seq : ℕ)
      → peers.size state ≤ 16
      → peers.size (update_peer peers state src_ip now seq) ≤ 16
  update_peer-size state src_ip now seq small = elim (Option-cases (peers.get state src_ip)) [
    | inr (entry, there) ↦ rw there (
        omega (
          arith,
          small,
          peers.size-set state src_ip
              (record {
                last_seen_ns = now;
                packet_count = next_u64 entry.packet_count;
                last_seq = seq;
              })
              entry there,
        ))
    | inl missing ↦
        let fresh : PeerMetadata = record {
          last_seen_ns = now;
          packet_count = 1;
          last_seq = seq;
        } in
        rw missing (elim (Bool-cases (ltb (peers.size state) 16)) [
          | inl room ↦
              let (state', done) =
                peers.insert_room state src_ip fresh (ltb→lt (peers.size state) 16 room) in
              rw done (
                omega (
                  arith,
                  ltb→lt (peers.size state) 16 room,
                  peers.size-insert state state' src_ip fresh missing done,
                ))
          | inr full ↦
              rw (peers.insert_full state src_ip fresh missing (ltb→le (peers.size state) 16 full))
                small
        ])
  ]

  get-update_peer :
      (state : peers.Map) (helpers : Helpers) (event : RaftPacketEvent) (ip : ℕ)
      (entry : PeerMetadata)
      → peers.get state ip ≡ some entry
      → peers.get (update_peer peers state event.src_ip helpers.ktime_ns event.seq) ip
        ≡ some (if eqb event.src_ip ip then updated helpers event entry else entry)
  get-update_peer state helpers event ip entry there = elim (Bool-cases (eqb event.src_ip ip)) [
    | inl same ↦
        let src : event.src_ip ≡ ip = (eqb_iff event.src_ip ip).0 same in
        rw (same, src, there)
          (peers.get-set state ip ip (updated helpers event entry) entry there
            ∙ rw (eqb-same ip) refl)
    | inr differ ↦ rw differ (elim (Option-cases (peers.get state event.src_ip)) [
      | inr (old, here) ↦ rw here (
          peers.get-set state event.src_ip ip (updated helpers event old) old here
          ∙ rw differ there)
      | inl missing ↦ rw missing (
          let fresh : PeerMetadata = record {
            last_seen_ns = helpers.ktime_ns;
            packet_count = 1;
            last_seq = event.seq;
          } in
          elim (Option-cases (peers.insert state event.src_ip fresh)) [
            | inl failed ↦ rw failed there
            | inr (state', done) ↦
                rw done (peers.get-insert state state' event.src_ip ip fresh done ∙ rw differ there)
          ])
    ])
  ]

module _ (peers : BpfMap 16 PeerMetadata) (counters : BpfMap 8 ℕ) where
  judged-size :
      (v : Verdict) (helpers : Helpers) (bs : List ℕ) (m : Maps peers counters)
      → peers.size m.peer_state ≤ 16
      → peers.size (judged peers counters v helpers bs m).peer_state ≤ 16
  judged-size malformed helpers bs m small = small
  judged-size other helpers bs m small = small
  judged-size raft helpers bs m small =
      update_peer-size peers m.peer_state (be32 bs 26) helpers.ktime_ns (event_of helpers bs).seq
        small

  pub judged_each-size :
      (frames : Frames) (m : Maps peers counters)
      → peers.size m.peer_state ≤ 16
      → peers.size (judged_each peers counters frames m).peer_state ≤ 16
  judged_each-size [] m small = small
  judged_each-size ((helpers, bs) ∷ frames) m small =
      judged_each-size frames (judged peers counters (verdict bs) helpers bs m)
        (judged-size (verdict bs) helpers bs m small)

  judged-follows :
      (v : Verdict) (helpers : Helpers) (bs : List ℕ) (m : Maps peers counters) (ip : ℕ)
      (entry : PeerMetadata)
      → peers.get m.peer_state ip ≡ some entry
      → peers.get (judged peers counters v helpers bs m).peer_state ip
        ≡ some (
            if is_raft v && eqb (be32 bs 26) ip
            then updated helpers (event_of helpers bs) entry
            else entry)
  judged-follows malformed helpers bs m ip entry there = there
  judged-follows other helpers bs m ip entry there = there
  judged-follows raft helpers bs m ip entry there =
      get-update_peer peers m.peer_state helpers (event_of helpers bs) ip entry there

  pub judged_each-follows :
      (frames : Frames) (m : Maps peers counters) (ip : ℕ) (entry : PeerMetadata)
      → peers.get m.peer_state ip ≡ some entry
      → peers.get (judged_each peers counters frames m).peer_state ip
        ≡ some (followed ip frames entry)
  judged_each-follows [] m ip entry there = there
  judged_each-follows ((helpers, bs) ∷ frames) m ip entry there =
      judged_each-follows frames (judged peers counters (verdict bs) helpers bs m) ip
        (if is_from ip bs then updated helpers (event_of helpers bs) entry else entry)
        (judged-follows (verdict bs) helpers bs m ip entry there)
