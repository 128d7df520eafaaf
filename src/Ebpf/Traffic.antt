-- ===== src/Ebpf/Traffic.antt =====
-- A sequence of packets through the classifier, from maps that are empty: the counters, the events
-- and the entry of a peer are what the frames ask for.
use raft_ebpf.Prelude.{
  ℕ, ◌+◌, Bool, true, false, List, [], ◌∷◌, ◌++◌, length, Bool-cases, inl, inr, sym, ap, ◌∙◌, eqb,
  ◌&&◌, if◌then◌else◌, next_u64, ◌≡◌, refl, arith,
}
use mathlib.Core.List.{append_assoc, append-nil}
use raft_ebpf.Ebpf.Kernel.{BpfMap}
use raft_ebpf.Ebpf.Classify.{PeerMetadata, RaftPacketEvent, Helpers, Maps, increment_stat}
use raft_ebpf.Ebpf.Layout.{be32}
use raft_ebpf.Ebpf.Verdict.{Verdict, malformed, other, raft, verdict, event_of, judged}
use raft_ebpf.Ebpf.Counters.{Counted, Counted-increment_stat}

-- frames with what the helpers answer while they are classified
abbrev pub Frames : Type 0
Frames = List (Helpers × List ℕ)

abbrev pub is_malformed : Verdict → Bool
is_malformed malformed = true
is_malformed other = false
is_malformed raft = false

abbrev pub is_raft : Verdict → Bool
is_raft malformed = false
is_raft other = false
is_raft raft = true

-- how many frames pass a test
abbrev pub total : (Verdict → Bool) → Frames → ℕ
total test [] = 0
total test ((helpers, bs) ∷ frames) =
    let rest = total test frames in if test (verdict bs) then 1 + rest else rest

-- the events that are to reach user space
abbrev pub sent : Frames → List RaftPacketEvent
sent [] = []
sent ((helpers, bs) ∷ frames) =
    let rest = sent frames in
    if is_raft (verdict bs) && helpers.reserves then event_of helpers bs ∷ rest else rest

-- the entry of an address, updated by the frames of the protocol that come from it
abbrev pub updated : Helpers → RaftPacketEvent → PeerMetadata → PeerMetadata
updated helpers event entry = record {
  last_seen_ns = helpers.ktime_ns;
  packet_count = next_u64 entry.packet_count;
  last_seq = event.seq;
}

abbrev pub is_from : ℕ → List ℕ → Bool
is_from ip bs = is_raft (verdict bs) && eqb (be32 bs 26) ip

abbrev pub followed : ℕ → Frames → PeerMetadata → PeerMetadata
followed ip [] entry = entry
followed ip ((helpers, bs) ∷ frames) entry =
    followed ip frames
      (if is_from ip bs then updated helpers (event_of helpers bs) entry else entry)

if-append :
    {A : Type 0} (b : Bool) (x : A) (rest : List A)
    → (if b then x ∷ [] else []) ++ rest ≡ (if b then x ∷ rest else rest)
if-append true x rest = refl
if-append false x rest = refl

module _ (peers : BpfMap 16 PeerMetadata) (counters : BpfMap 8 ℕ) where
  abbrev pub judged_each : Frames → Maps peers counters → Maps peers counters
  judged_each [] m = m
  judged_each ((helpers, bs) ∷ frames) m =
      judged_each frames (judged peers counters (verdict bs) helpers bs m)

  judged-Counted :
      (v : Verdict) (helpers : Helpers) (bs : List ℕ) (m : Maps peers counters) (a b c : ℕ)
      → Counted counters m.stats a b c
      → Counted counters
          (judged peers counters v helpers bs m).stats
          (a + 1)
          (if is_raft v then b + 1 else b)
          (if is_malformed v then c + 1 else c)
  judged-Counted malformed helpers bs m a b c h =
      Counted-increment_stat counters (increment_stat counters m.stats 0) 2 (a + 1) b c
        (omega arith) (Counted-increment_stat counters m.stats 0 a b c (omega arith) h)
  judged-Counted other helpers bs m a b c h =
      Counted-increment_stat counters m.stats 0 a b c (omega arith) h
  judged-Counted raft helpers bs m a b c h =
      Counted-increment_stat counters (increment_stat counters m.stats 0) 1 (a + 1) b c
        (omega arith) (Counted-increment_stat counters m.stats 0 a b c (omega arith) h)

  pub Counted-move :
      (stats : counters.Map) {a b c a' b' c' : ℕ}
      → a ≡ a'
      → b ≡ b'
      → c ≡ c'
      → Counted counters stats a b c
      → Counted counters stats a' b' c'
  Counted-move stats ea eb ec h = rw⁻¹ (ea, eb, ec) h

  pub judged_each-Counted :
      (frames : Frames) (m : Maps peers counters) (a b c : ℕ)
      → Counted counters m.stats a b c
      → Counted counters
          (judged_each frames m).stats
          (a + length frames)
          (b + total is_raft frames)
          (c + total is_malformed frames)
  judged_each-Counted [] m a b c h =
      Counted-move m.stats (omega arith) (omega arith) (omega arith) h
  judged_each-Counted ((helpers, bs) ∷ frames) m a b c h =
      Counted-move (judged_each ((helpers, bs) ∷ frames) m).stats (omega arith) (ground arith)
        (ground arith)
        (judged_each-Counted frames (judged peers counters (verdict bs) helpers bs m) (a + 1)
          (if is_raft (verdict bs) then b + 1 else b)
          (if is_malformed (verdict bs) then c + 1 else c)
          (judged-Counted (verdict bs) helpers bs m a b c h))

  judged-events :
      (v : Verdict) (helpers : Helpers) (bs : List ℕ) (m : Maps peers counters)
      → (judged peers counters v helpers bs m).events
        ≡ m.events ++ (if is_raft v && helpers.reserves then event_of helpers bs ∷ [] else [])
  judged-events malformed helpers bs m = sym (append-nil m.events)
  judged-events other helpers bs m = sym (append-nil m.events)
  judged-events raft helpers bs m = elim (Bool-cases helpers.reserves) [
    | inl room ↦ rw room refl
    | inr full ↦ rw full (sym (append-nil m.events))
  ]

  pub judged_each-events :
      (frames : Frames) (m : Maps peers counters)
      → (judged_each frames m).events ≡ m.events ++ sent frames
  judged_each-events [] m = sym (append-nil m.events)
  judged_each-events ((helpers, bs) ∷ frames) m =
      judged_each-events frames (judged peers counters (verdict bs) helpers bs m)
      ∙ ap (λ l. l ++ sent frames) (judged-events (verdict bs) helpers bs m)
      ∙ append_assoc m.events
          (if is_raft (verdict bs) && helpers.reserves then event_of helpers bs ∷ [] else [])
          (sent frames)
      ∙ ap (λ l. m.events ++ l)
          (if-append (is_raft (verdict bs) && helpers.reserves) (event_of helpers bs) (sent frames))
