-- ===== src/Ebpf/Runs.antt =====
-- A sequence of packets through the program, from maps that are empty.
use raft_ebpf.Prelude.{
  ℕ, ◌%◌, ◌≤◌, some, List, [], ◌∷◌, length, map, All, u64_mod, pure, ◌>>=◌, ok, ◌≡◌, refl, arith,
}
use raft_ebpf.Ebpf.Kernel.{BpfMap, Packets, Headers}
use raft_ebpf.Ebpf.Classify.{PeerMetadata, Helpers, Maps, Program, classify_raft}
use raft_ebpf.Ebpf.Layout.{AreBytes}
use raft_ebpf.Ebpf.Verdict.{verdict, judged}
use raft_ebpf.Ebpf.Judge.{classify_raft-judges}
use raft_ebpf.Ebpf.Counters.{stat, Counted}
use raft_ebpf.Ebpf.Traffic.{
  Frames, is_raft, is_malformed, total, sent, followed, judged_each, judged_each-Counted,
  Counted-move, judged_each-events,
}
use raft_ebpf.Ebpf.Bounds.{judged_each-size, judged_each-follows}

module _ (p : Packets) (peers : BpfMap 16 PeerMetadata) (counters : BpfMap 8 ℕ) where
  abbrev pub no_packets : Maps peers counters
  no_packets = record { peer_state = peers.empty; stats = counters.empty; events = [] }

  -- the kernel calls the program once for each packet
  unfoldable pub classify_each : List (Helpers × p.TcContext) → Program p peers counters (List ℕ)
  unfolding classify_raft
  classify_each [] = pure []
  classify_each ((helpers, ctx) ∷ packets) = do
    action ← classify_raft p peers counters helpers ctx
    actions ← classify_each packets
    pure (action ∷ actions)

  abbrev pub frames_of : List (Helpers × p.TcContext) → Frames
  frames_of [] = []
  frames_of ((helpers, ctx) ∷ packets) = (helpers, p.bytes ctx) ∷ frames_of packets

  length-frames_of :
      (packets : List (Helpers × p.TcContext)) → length (frames_of packets) ≡ length packets
  length-frames_of [] = refl
  length-frames_of (q ∷ packets) = omega (arith, length-frames_of packets)

  no_packets-Counted : Counted counters no_packets.stats 0 0 0
  no_packets-Counted = (
    rw (counters.get-empty 0, counters.get-empty 1, counters.get-empty 2) counters.size-empty,
    rw (counters.get-empty 0) refl,
    rw (counters.get-empty 1) refl,
    rw (counters.get-empty 2) refl,
  )

module _ (p : Packets) (peers : BpfMap 16 PeerMetadata) (counters : BpfMap 8 ℕ)
    (l : Headers p) where
  classify_each-judges :
      (packets : List (Helpers × p.TcContext)) (m : Maps peers counters)
      → All (λ q. AreBytes (p.bytes q.1)) packets
      → classify_each p peers counters packets m ≡ (
        ok (map (λ q. p.tc_act_pipe) packets),
        judged_each peers counters (frames_of p peers counters packets) m,
      )
  unfolding classify_each
  classify_each-judges [] m are = refl
  classify_each-judges ((helpers, ctx) ∷ packets) m are =
      let m' = judged peers counters (verdict (p.bytes ctx)) helpers (p.bytes ctx) m in
      rw
        (
          classify_raft-judges p peers counters l helpers ctx m are.0,
          classify_each-judges packets m' are.1,
        )
        refl

  -- From empty maps, whatever the packets are: every packet passes; the three counters are, on a
  -- u64 that wraps, the number of all packets, of those of the protocol and of those that are too
  -- short for their headers; the events of the packets of the protocol reach user space in order,
  -- those that found no space in the ring buffer left out; and at most 16 peers are tracked.
  pub classify_each-counts :
      (packets : List (Helpers × p.TcContext))
      → All (λ q. AreBytes (p.bytes q.1)) packets
      → let frames = frames_of p peers counters packets in
        let (r, m) = classify_each p peers counters packets (no_packets p peers counters) in
        (r ≡ ok (map (λ q. p.tc_act_pipe) packets))
        × (stat counters m.stats 0 ≡ length packets % u64_mod)
        × (stat counters m.stats 1 ≡ total is_raft frames % u64_mod)
        × (stat counters m.stats 2 ≡ total is_malformed frames % u64_mod)
        × (m.events ≡ sent frames)
        × (peers.size m.peer_state ≤ 16)
  classify_each-counts packets are =
      let frames = frames_of p peers counters packets in
      let start = no_packets p peers counters in
      let no_peers : peers.size start.peer_state ≤ 16 = omega (arith, peers.size-empty) in
      let (tidy, packets', ours, errors) =
        Counted-move peers counters (judged_each peers counters frames start).stats
          (omega (arith, length-frames_of p peers counters packets)) (omega arith) (omega arith)
          (judged_each-Counted peers counters frames start 0 0 0
            (no_packets-Counted p peers counters)) in
      rw (classify_each-judges packets start are) (
        refl,
        packets',
        ours,
        errors,
        judged_each-events peers counters frames start,
        judged_each-size peers counters frames start no_peers,
      )

  -- The entry of an address that is tracked is, after any packets, the entry updated by the packets
  -- of the protocol from this address, and by no others: the time and the sequence number of the
  -- last one, and as many more as there were, on a u64 that wraps.
  pub classify_each-follows :
      (packets : List (Helpers × p.TcContext)) (m : Maps peers counters) (ip : ℕ)
      (entry : PeerMetadata)
      → All (λ q. AreBytes (p.bytes q.1)) packets
      → peers.get m.peer_state ip ≡ some entry
      → let frames = frames_of p peers counters packets in
        peers.get (classify_each p peers counters packets m).1.peer_state ip
        ≡ some (followed ip frames entry)
  classify_each-follows packets m ip entry are there =
      rw (classify_each-judges packets m are)
        (judged_each-follows peers counters (frames_of p peers counters packets) m ip entry there)
