-- ===== src/Network/Departing.antt =====
-- The messages of the channel on a network without faults.
use raft_ebpf.Prelude.{
  ℕ, String, text_eq, Option, none, some, List, [], ◌∷◌, ◌++◌, map, ok, ◌≡◌, refl, sym, ap, ◌∙◌,
}
use mathlib.Core.List.{map-append, append_assoc, append-nil}
use mathlib.Core.Path.{subst}
use raft_ebpf.Prelude.Keeps.{Keeps, Keeps-modify, keeps_rules}
use raft_ebpf.HashMap.{HashMap, get}
use raft_ebpf.Common.{MessageEnvelope}
use raft_ebpf.Network.Framing.{Wire, frame_of}
use raft_ebpf.Network.Peers.{
  NetworkManager, network_io, connect, connection_to, write_message, send_message,
}
use raft_ebpf.Network.Sending.{send_message-sends}
use raft_ebpf.Network.Lasting.{network_io-Keeps}
use raft_ebpf.Network.Outgoing.{send_outgoing}

pub io-addresses : Keeps (λ m. m.peer_addresses) network_io
io-addresses = network_io-Keeps (λ m. m.peer_addresses) (λ m f. refl)

connect-addresses :
    (peer_id : String) (address : Option String)
    → Keeps (λ m. m.peer_addresses) (connect peer_id address)
unfolding network_io
connect-addresses peer_id none = search keeps_rules
connect-addresses peer_id (some address) = search (keeps_rules, Keeps-modify, io-addresses)

connection_to-addresses :
    (peer_id : String) (stream : Option ℕ)
    → Keeps (λ m. m.peer_addresses) (connection_to peer_id stream)
unfolding network_io
connection_to-addresses peer_id none = search (keeps_rules, connect-addresses)
connection_to-addresses peer_id (some stream) = search keeps_rules

module _ ⦃w : Wire⦄ where
  pub write_message-addresses :
      (stream : Option ℕ) (envelope : MessageEnvelope)
      → Keeps (λ m. m.peer_addresses) (write_message stream envelope)
  write_message-addresses none envelope = search keeps_rules
  write_message-addresses (some stream) envelope = search (keeps_rules, Keeps-modify, io-addresses)

  send_message-addresses :
      (peer_id : String) (envelope : MessageEnvelope)
      → Keeps (λ m. m.peer_addresses) (send_message peer_id envelope)
  unfolding send_message
  send_message-addresses peer_id envelope =
      search (keeps_rules, connection_to-addresses, write_message-addresses)

  -- each message goes to a peer that has an address, and serde_json writes it as the payload
  abbrev pub Sendable : HashMap String String → List MessageEnvelope → List (List ℕ) → Type 0
  Sendable addresses [] [] = Unit
  Sendable addresses (envelope ∷ envelopes) (payload ∷ payloads) =
      ((address : String) × (get addresses envelope.to ≡ some address))
      × (w.to_vec envelope ≡ some payload)
      × Sendable addresses envelopes payloads
  Sendable addresses _ _ = ⊥

  -- the bytes of the writes, the oldest first
  abbrev pub sent_bytes : NetworkManager → List (List ℕ)
  sent_bytes m = map (λ x. x.1) m.written

  -- On a network without faults, where each peer has an address, the messages of the channel are
  -- written in its order, each as one frame, and nothing else is written.
  pub send_outgoing-sends :
      (envelopes : List MessageEnvelope) (payloads : List (List ℕ)) (m : NetworkManager)
      → m.faults ≡ []
      → Sendable m.peer_addresses envelopes payloads
      → let (r, m') = send_outgoing envelopes m in
        (r ≡ ok tt) × (sent_bytes m' ≡ sent_bytes m ++ map frame_of payloads)
  unfolding send_outgoing
  send_outgoing-sends [] [] m healthy sendable = (refl, sym (append-nil (sent_bytes m)))
  send_outgoing-sends [] (payload ∷ payloads) m healthy sendable = absurd sendable
  send_outgoing-sends (envelope ∷ envelopes) [] m healthy sendable = absurd sendable
  send_outgoing-sends (envelope ∷ envelopes) (payload ∷ payloads) m healthy sendable =
      let (r, m') = send_message envelope.to envelope m in
      let sent =
        send_message-sends envelope.to sendable.0.0 envelope payload m healthy sendable.0.1
          sendable.1 in
      let same : m'.peer_addresses ≡ m.peer_addresses =
        (send_message-addresses envelope.to envelope).at m in
      let more =
        send_outgoing-sends envelopes payloads m' sent.1.healthy
          (subst (λ a. Sendable a envelopes payloads) (sym same) sendable.2) in
      let here : sent_bytes m' ≡ sent_bytes m ++ frame_of payload ∷ [] =
        ap (map (λ x. x.1)) sent.1.written
        ∙ map-append (λ x. x.1) m.written ((sent.1.stream, frame_of payload) ∷ []) in
      rw sent.0 (
        more.0,
        more.1
            ∙ ap (λ (l : List (List ℕ)). l ++ map frame_of payloads) here
            ∙ append_assoc (sent_bytes m) (frame_of payload ∷ []) (map frame_of payloads),
      )
