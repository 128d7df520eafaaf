-- ===== src/Network/Peers.antt =====
-- `NetworkManager`: the connections to the peers, and `send_message`.
--
-- A `TcpStream` is a number, and `written` is what was written to each. `faults` are the outcomes of
-- the next calls of the network; where it has run out, calls succeed. A `write_all` that fails may
-- write a part of its bytes, which the model leaves out.
use raft_ebpf.Prelude.{
  ℕ, ◌+◌, String, text_eq, Bool, Option, none, some, List, [], ◌∷◌, ◌++◌, Exec, Result, ok, err,
  Error, json, pure, gets, modify, or_throw, ◌>>=◌, ◌>>◌, if◌then◌else◌,
}
use raft_ebpf.HashMap.{HashMap, get, insert}
use raft_ebpf.Common.{MessageEnvelope}
use raft_ebpf.Network.Framing.{Wire, frame_of}

pub record NetworkManager : Type 0 where
  pub connections : HashMap String ℕ
  pub peer_addresses : HashMap String String
  -- the number of the next stream
  pub next_stream : ℕ
  -- the writes, the oldest first
  pub written : List (ℕ × List ℕ)
  pub faults : List Bool

abbrev pub outcome : List Bool → NetworkManager → Result (Unit {0}) × NetworkManager
outcome [] m = (ok tt, m)
outcome (fails ∷ rest) m = (if fails then err Error.io else ok tt, record m { faults = rest })

unfoldable pub network_io : Exec NetworkManager (Unit {0})
network_io m = outcome m.faults m

unfoldable pub register_peer : String → String → Exec NetworkManager (Unit {0})
register_peer peer_id address =
    modify (λ m. record m { peer_addresses = insert m.peer_addresses peer_id address })

-- a new stream that is kept for the peer
abbrev pub connected : String → NetworkManager → NetworkManager
connected peer_id m = record m {
  connections = insert m.connections peer_id m.next_stream;
  next_stream = m.next_stream + 1;
}

-- `TcpStream::connect(&addr).await?` where the peer has an address
abbrev pub connect : String → Option String → Exec NetworkManager (Option ℕ)
unfolding network_io
connect peer_id none = pure none
connect peer_id (some addr) = do
  network_io
  stream ← gets (λ m. m.next_stream)
  modify (connected peer_id)
  pure (some stream)

-- "Get or create connection"
abbrev pub connection_to : String → Option ℕ → Exec NetworkManager (Option ℕ)
connection_to peer_id (some stream) = pure (some stream)
connection_to peer_id none = do
  address ← gets (λ m. get m.peer_addresses peer_id)
  connect peer_id address

abbrev pub written_to : ℕ → List ℕ → NetworkManager → NetworkManager
written_to stream buf m = record m { written = m.written ++ (stream, buf) ∷ [] }

module _ ⦃w : Wire⦄ where
  -- "Serialize and send message"; `flush` of a socket does nothing
  abbrev pub write_message : Option ℕ → MessageEnvelope → Exec NetworkManager (Unit {0})
  write_message none envelope = pure tt
  write_message (some stream) envelope = do
    payload ← or_throw (w.to_vec envelope) json
    network_io
    modify (written_to stream (frame_of payload))

  unfoldable pub send_message : String → MessageEnvelope → Exec NetworkManager (Unit {0})
  unfolding network_io
  send_message peer_id envelope = do
    known ← gets (λ m. get m.connections peer_id)
    stream ← connection_to peer_id known
    write_message stream envelope
