-- ===== src/Network/Unaddressed.antt =====
-- A peer that was not registered when the network manager started.
use raft_ebpf.Prelude.{
  ℕ, String, text_eq, Option, none, some, List, [], ◌∷◌, Result, ok, continue, Option-cases, inl,
  inr, ◌≡◌, refl, ap, ◌∙◌, arith,
}
use raft_ebpf.HashMap.{get}
use raft_ebpf.HashMap.Laws.{get-insert}
use raft_ebpf.Common.{MessageEnvelope}
use raft_ebpf.Network.Framing.{Wire}
use raft_ebpf.Network.Peers.{
  NetworkManager, network_io, connected, connect, write_message, send_message,
}
use raft_ebpf.Network.Outgoing.{failure_logged, send_outgoing}
use raft_ebpf.Network.Lasting.{io-connections, write_message-Keeps, continue-holds}
use raft_ebpf.Network.Departing.{io-addresses, write_message-addresses}

-- the peer has no address and no stream
abbrev pub IsUnknown : String → NetworkManager → Type 0
IsUnknown peer_id m = (get m.peer_addresses peer_id ≡ none) × (get m.connections peer_id ≡ none)

connected-IsUnknown :
    (peer_id other address : String) (m : NetworkManager)
    → get m.peer_addresses other ≡ some address
    → IsUnknown peer_id m
    → IsUnknown peer_id (connected other m)
connected-IsUnknown peer_id other address m found u = (
  u.0,
  ground (
    arith,
    get-insert m.connections other peer_id m.next_stream,
    text_eq.beq_iff other peer_id,
    found,
    u.0,
    u.1,
  ),
)

connect-IsUnknown :
    (peer_id other : String) (address : Option String) (m : NetworkManager)
    → get m.peer_addresses other ≡ address
    → IsUnknown peer_id m
    → IsUnknown peer_id (connect other address m).1
unfolding network_io
connect-IsUnknown peer_id other none m found u = u
connect-IsUnknown peer_id other (some address) m found u =
    let (r, m') = network_io m in
    let addresses : m'.peer_addresses ≡ m.peer_addresses = io-addresses.at m in
    let connections : m'.connections ≡ m.connections = io-connections.at m in
    let u' : IsUnknown peer_id m' =
      (ap (λ a. get a peer_id) addresses ∙ u.0, ap (λ c. get c peer_id) connections ∙ u.1) in
    let found' = ap (λ a. get a other) addresses ∙ found in
    continue-holds (IsUnknown peer_id) r _ m' u'
      (λ v. connected-IsUnknown peer_id other address m' found' u')

module _ ⦃w : Wire⦄ where
  write-IsUnknown :
      (peer_id : String) (envelope : MessageEnvelope) (x : Result (Option ℕ) × NetworkManager)
      → IsUnknown peer_id x.1
      → IsUnknown peer_id (continue x.0 (λ s. write_message s envelope) x.1).1
  write-IsUnknown peer_id envelope (r, m) u =
      continue-holds (IsUnknown peer_id) r (λ s. write_message s envelope) m u
        (λ s. (
          ap (λ a. get a peer_id) ((write_message-addresses s envelope).at m) ∙ u.0,
          ap (λ c. get c peer_id) ((write_message-Keeps s envelope).at m) ∙ u.1,
        ))

  send_message-IsUnknown :
      (peer_id other : String) (envelope : MessageEnvelope) (m : NetworkManager)
      → IsUnknown peer_id m
      → IsUnknown peer_id (send_message other envelope m).1
  unfolding send_message
  send_message-IsUnknown peer_id other envelope m u =
      elim (Option-cases (get m.connections other)) [
        | inl new ↦ rw new (
            write-IsUnknown peer_id envelope (connect other (get m.peer_addresses other) m)
              (connect-IsUnknown peer_id other (get m.peer_addresses other) m refl u))
        | inr (s, held) ↦ rw held (write-IsUnknown peer_id envelope (ok (some s), m) u)
      ]

  -- whatever is to be sent, no stream to the peer is opened
  pub send_outgoing-IsUnknown :
      (envelopes : List MessageEnvelope) (peer_id : String) (m : NetworkManager)
      → IsUnknown peer_id m
      → IsUnknown peer_id (send_outgoing envelopes m).1
  unfolding send_outgoing
  send_outgoing-IsUnknown [] peer_id m u = u
  send_outgoing-IsUnknown (envelope ∷ envelopes) peer_id m u =
      let (r, m') = send_message envelope.to envelope m in
      let u' = send_message-IsUnknown peer_id envelope.to envelope m u in
      continue-holds (IsUnknown peer_id) (failure_logged r) (λ v. send_outgoing envelopes) m' u'
        (λ v. send_outgoing-IsUnknown envelopes peer_id m' u')
