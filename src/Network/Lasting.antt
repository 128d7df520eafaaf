-- ===== src/Network/Lasting.antt =====
-- A stream that a peer has is never replaced.
use raft_ebpf.Prelude.{
  ℕ, String, text_eq, Bool, Option, none, some, List, [], ◌∷◌, Result, ok, err, blocked, Exec,
  continue, Option-cases, inl, inr, ◌≡◌, refl, ap, ◌∙◌, arith,
}
use raft_ebpf.Prelude.Keeps.{Keeps, Keeps-modify, keeps_rules}
use raft_ebpf.HashMap.{get}
use raft_ebpf.HashMap.Laws.{get-insert}
use raft_ebpf.Common.{MessageEnvelope}
use raft_ebpf.Network.Framing.{Wire}
use raft_ebpf.Network.Peers.{
  NetworkManager, outcome, network_io, connected, connect, write_message, send_message,
}
use raft_ebpf.Network.Outgoing.{failure_logged, send_outgoing}

module _ {X : Type 0} (view : NetworkManager → X)
    (same : (m : NetworkManager) (f : List Bool) → view (record m { faults = f }) ≡ view m) where
  outcome_lem : (f : List Bool) (m : NetworkManager) → view (outcome f m).1 ≡ view m
  outcome_lem [] m = refl
  outcome_lem (x ∷ f) m = same m f

  pub network_io-Keeps : Keeps view network_io
  unfolding network_io
  network_io-Keeps = record { at = λ m. outcome_lem m.faults m }

pub io-connections : Keeps (λ m. m.connections) network_io
io-connections = network_io-Keeps (λ m. m.connections) (λ m f. refl)

-- the peer has the stream
abbrev pub OnStream : String → ℕ → NetworkManager → Type 0
OnStream peer_id stream m = get m.connections peer_id ≡ some stream

pub continue-holds :
    {A B : Type 0} (P : NetworkManager → Type 0) (r : Result A) (f : A → Exec NetworkManager B)
    (m : NetworkManager)
    → P m
    → ((a : A) → P (f a m).1)
    → P (continue r f m).1
continue-holds P (ok a) f m on rest = rest a
continue-holds P (err e) f m on rest = on
continue-holds P blocked f m on rest = on

connected-OnStream :
    (peer_id other : String) (stream : ℕ) (m : NetworkManager)
    → get m.connections other ≡ none
    → OnStream peer_id stream m
    → OnStream peer_id stream (connected other m)
connected-OnStream peer_id other stream m new on = ground (
  arith,
  get-insert m.connections other peer_id m.next_stream,
  text_eq.beq_iff other peer_id,
  new,
  on,
)

connect-OnStream :
    (peer_id other : String) (stream : ℕ) (address : Option String) (m : NetworkManager)
    → get m.connections other ≡ none
    → OnStream peer_id stream m
    → OnStream peer_id stream (connect other address m).1
unfolding network_io
connect-OnStream peer_id other stream none m new on = on
connect-OnStream peer_id other stream (some address) m new on =
    let (r, m') = network_io m in
    let same : m'.connections ≡ m.connections = io-connections.at m in
    let on' : OnStream peer_id stream m' = ap (λ c. get c peer_id) same ∙ on in
    let new' : get m'.connections other ≡ none = ap (λ c. get c other) same ∙ new in
    continue-holds (OnStream peer_id stream) r _ m' on'
      (λ u. connected-OnStream peer_id other stream m' new' on')

module _ ⦃w : Wire⦄ where
  pub write_message-Keeps :
      (stream : Option ℕ) (envelope : MessageEnvelope)
      → Keeps (λ m. m.connections) (write_message stream envelope)
  write_message-Keeps none envelope = search keeps_rules
  write_message-Keeps (some stream) envelope = search (keeps_rules, Keeps-modify, io-connections)

  write-OnStream :
      (peer_id other : String) (stream : ℕ) (envelope : MessageEnvelope)
      (x : Result (Option ℕ) × NetworkManager)
      → OnStream peer_id stream x.1
      → OnStream peer_id stream (continue x.0 (λ s. write_message s envelope) x.1).1
  write-OnStream peer_id other stream envelope (r, m) on =
      continue-holds (OnStream peer_id stream) r (λ s. write_message s envelope) m on
        (λ s. ap (λ c. get c peer_id) ((write_message-Keeps s envelope).at m) ∙ on)

  send_message-OnStream :
      (peer_id other : String) (stream : ℕ) (envelope : MessageEnvelope) (m : NetworkManager)
      → OnStream peer_id stream m
      → OnStream peer_id stream (send_message other envelope m).1
  unfolding send_message
  send_message-OnStream peer_id other stream envelope m on =
      elim (Option-cases (get m.connections other)) [
        | inl new ↦ rw new (
            write-OnStream peer_id other stream envelope
              (connect other (get m.peer_addresses other) m)
              (connect-OnStream peer_id other stream (get m.peer_addresses other) m new on))
        | inr (s, held) ↦ rw held (write-OnStream peer_id other stream envelope (ok (some s), m) on)
      ]

  -- A stream that is kept for a peer stays the peer's stream, whatever the network does: a write that
  -- fails does not remove it, and no new one is opened for the peer.
  pub send_outgoing-OnStream :
      (envelopes : List MessageEnvelope) (peer_id : String) (stream : ℕ) (m : NetworkManager)
      → OnStream peer_id stream m
      → OnStream peer_id stream (send_outgoing envelopes m).1
  unfolding send_outgoing
  send_outgoing-OnStream [] peer_id stream m on = on
  send_outgoing-OnStream (envelope ∷ envelopes) peer_id stream m on =
      let (r, m') = send_message envelope.to envelope m in
      let kept = send_message-OnStream peer_id envelope.to stream envelope m on in
      continue-holds (OnStream peer_id stream) (failure_logged r) (λ u. send_outgoing envelopes) m'
        kept (λ u. send_outgoing-OnStream envelopes peer_id stream m' kept)
