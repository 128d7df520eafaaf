-- ===== src/Network/Sending.antt =====
-- `send_message` on a network without faults.
use raft_ebpf.Prelude.{
  some-inj, ℕ, String, text_eq, some, List, [], ◌∷◌, ◌++◌, ok, ◌≡◌, refl, sym, ◌∙◌, Option-cases,
  inl, inr, arith,
}
use raft_ebpf.HashMap.{get}
use raft_ebpf.HashMap.Laws.{get-insert}
use raft_ebpf.Common.{MessageEnvelope}
use raft_ebpf.Network.Framing.{Wire, frame_of}
use raft_ebpf.Network.Peers.{NetworkManager, network_io, send_message}

module _ ⦃w : Wire⦄ where
  -- the peer's stream afterwards
  pub record Sent (peer_id : String) (buf : List ℕ) (m after : NetworkManager) : Type 0 where
    pub stream : ℕ
    pub kept : get after.connections peer_id ≡ some stream
    pub reused : (s : ℕ) → get m.connections peer_id ≡ some s → stream ≡ s
    pub written : after.written ≡ m.written ++ (stream, buf) ∷ []
    pub healthy : after.faults ≡ []

  -- To a peer that is connected or has an address, a message is sent as one frame, on the stream
  -- that the peer has, or on a new one that is kept for it.
  pub send_message-sends :
      (peer_id address : String) (envelope : MessageEnvelope) (payload : List ℕ)
      (m : NetworkManager)
      → m.faults ≡ []
      → get m.peer_addresses peer_id ≡ some address
      → w.to_vec envelope ≡ some payload
      → let (r, m') = send_message peer_id envelope m in
        (r ≡ ok tt) × Sent peer_id (frame_of payload) m m'
  unfolding send_message network_io
  send_message-sends peer_id address envelope payload m healthy known json =
      elim (Option-cases (get m.connections peer_id)) [
        | inl new ↦
            rw (new, known, healthy, json)
              (
                refl,
                record {
                  stream = m.next_stream;
                  kept = ground (
                    arith,
                    get-insert m.connections peer_id peer_id m.next_stream,
                    text_eq.beq_iff peer_id peer_id,
                  );
                  reused = λ s at. absurd cc;
                  written = refl;
                  healthy = refl;
                },
              )
        | inr (s, held) ↦
            rw (held, json, healthy)
              (
                refl,
                record {
                  stream = s;
                  kept = held;
                  reused = λ s' at. some-inj s s' (sym held ∙ at);
                  written = refl;
                  healthy = refl;
                },
              )
      ]
