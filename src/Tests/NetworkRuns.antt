-- ===== src/Tests/NetworkRuns.antt =====
-- The theorems on the network and between two nodes, applied to runs.
use raft_ebpf.Prelude.{
  ℕ, ◌+◌, ◌≤◌, ◌<◌, ◌++◌, ◌≡◌, refl, List, [], ◌∷◌, map, ok, true, length, number_eq, text_eq,
  arith,
}
use raft_ebpf.Common.{
  leader, follower, MessageEnvelope, append_entries_response, request_vote_response,
}
use raft_ebpf.RaftLog
use raft_ebpf.RaftLog.{RaftLog, new, current_term, has_entry, entry_at, term_at, set_current_term}
use raft_ebpf.Network.Framing.{frame_of, encode_message, decode_message}
use raft_ebpf.Network.RoundTrip.{decode-encode_message}
use raft_ebpf.Network.Connection.{bytes, handle_connection}
use raft_ebpf.Network.Stream.{deliver, handle_connection-delivers}
use raft_ebpf.Network.Peers.{NetworkManager}
use raft_ebpf.Network.Outgoing.{send_outgoing}
use raft_ebpf.Network.Lasting.{OnStream, send_outgoing-OnStream}
use raft_ebpf.Network.Departing.{sent_bytes, send_outgoing-sends}
use raft_ebpf.Node.State.{RaftNode}
use raft_ebpf.Node.Heartbeat.{request_for}
use raft_ebpf.Node.Follow.{handle_append_entries}
use raft_ebpf.Node.Matching.{conflict}
use raft_ebpf.Node.Replicate.{request_for-replicates}
use raft_ebpf.Tests.Libraries.{bounded, unary}
use raft_ebpf.Tests.Wires.{answers}
use raft_ebpf.Tests.Log.{start, start-IsDurable, start-IsContiguous, two, two-IsContiguous}
use raft_ebpf.Tests.Nodes.{node}

abbrev taken : MessageEnvelope
taken = record {
  from = "";
  to = "";
  message =
      append_entries_response
        (record { term = 1; success = true; last_log_index = 2; node_id = "" });
}

abbrev vote : MessageEnvelope
vote = record {
  from = "";
  to = "";
  message = request_vote_response (record { term = 1; vote_granted = true; node_id = "" });
}

decode-encode_message_example :
    (encode_message taken ≡ ok (frame_of (0 ∷ 1 ∷ 1 ∷ 2 ∷ [])))
    × (decode_message (frame_of (0 ∷ 1 ∷ 1 ∷ 2 ∷ []) ++ 9 ∷ []) ≡ ok taken)
decode-encode_message_example =
    decode-encode_message taken (0 ∷ 1 ∷ 1 ∷ 2 ∷ []) (9 ∷ []) refl (omega arith)

-- two messages that arrive in pieces which end within the first length and within the second message
abbrev pieces : List (List ℕ)
pieces = (0 ∷ 0 ∷ []) ∷ (0 ∷ 4 ∷ 0 ∷ 1 ∷ 1 ∷ 2 ∷ 0 ∷ 0 ∷ 0 ∷ 3 ∷ 1 ∷ []) ∷ (1 ∷ 1 ∷ []) ∷ []

handle_connection-delivers_example :
    handle_connection (map bytes pieces) [] (node leader)
    ≡ deliver (taken ∷ vote ∷ []) (node leader)
handle_connection-delivers_example =
    handle_connection-delivers (taken ∷ vote ∷ []) ((0 ∷ 1 ∷ 1 ∷ 2 ∷ []) ∷ (1 ∷ 1 ∷ 1 ∷ []) ∷ [])
      pieces (node leader) (refl, (refl, tt)) (omega arith, (omega arith, tt)) (tt, (tt, (tt, tt)))
      refl

abbrev manager : NetworkManager
manager = record {
  connections = ("b", 4) ∷ [];
  peer_addresses = ("b", "b:1") ∷ ("c", "c:1") ∷ [];
  next_stream = 5;
  written = [];
  faults = [];
}

-- a follower with an empty log
abbrev fresh : RaftNode
fresh = record (node follower) { log = start }

request_for-replicates_example :
    let req = request_for (node leader) "c" in
    let (r, follow') = handle_append_entries "a" req fresh in
    (r ≡ ok tt)
    × ((k : ℕ) → 1 ≤ k → k < 1 + length req.entries → entry_at follow'.log k ≡ entry_at two k)
unfolding new RaftLog.append_entries request_for has_entry conflict term_at
request_for-replicates_example =
    request_for-replicates (node leader) fresh "c" "a" 1 refl (omega arith) (omega arith)
      (omega arith) two-IsContiguous start-IsContiguous start-IsDurable refl (omega arith)
      (omega arith) refl ((omega arith, omega arith), (tt, tt)) (omega arith)

-- the peer without a name is reached too
abbrev reaching : NetworkManager
reaching = record manager { peer_addresses = ("", ":1") ∷ manager.peer_addresses }

send_outgoing-sends_example :
    let (r, m') = send_outgoing (taken ∷ vote ∷ []) reaching in
    (r ≡ ok tt)
    × (sent_bytes m'
        ≡ sent_bytes reaching ++ map frame_of ((0 ∷ 1 ∷ 1 ∷ 2 ∷ []) ∷ (1 ∷ 1 ∷ 1 ∷ []) ∷ []))
send_outgoing-sends_example =
    send_outgoing-sends (taken ∷ vote ∷ []) ((0 ∷ 1 ∷ 1 ∷ 2 ∷ []) ∷ (1 ∷ 1 ∷ 1 ∷ []) ∷ []) reaching
      refl ((":1", refl), refl, ((":1", refl), refl, tt))

-- the first two writes, to a peer that is connected, fail
abbrev faulty : NetworkManager
faulty = record manager { connections = ("", 4) ∷ []; faults = true ∷ true ∷ [] }

send_outgoing-OnStream_example : OnStream "" 4 (send_outgoing (taken ∷ vote ∷ taken ∷ []) faulty).1
send_outgoing-OnStream_example = send_outgoing-OnStream (taken ∷ vote ∷ taken ∷ []) "" 4 faulty refl
