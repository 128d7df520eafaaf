-- ===== src/Daemon/Addresses.antt =====
-- Which peers the network manager can reach.
use raft_ebpf.Prelude.{
  ℕ, String, text_eq, ◌==◌, Bool, Option, none, some, map_option, List, [], ◌∷◌, Result, ok, err,
  blocked, Bool-cases, inl, inr, if◌then◌else◌, ◌≡◌, refl, ap, sym, ◌∙◌,
}
use mathlib.Core.Path.{subst}
use raft_ebpf.HashMap.{HashMap, get, insert}
use raft_ebpf.HashMap.Laws.{get-insert}
use raft_ebpf.Common.{Heapless, PeerInfo, MessageEnvelope, new_peer, same_role, leader}
use raft_ebpf.StateMachine.Messages.{Values}
use raft_ebpf.RaftLog
use raft_ebpf.RaftLog.{RaftLog}
use raft_ebpf.RaftLog.Files.{Disk}
use raft_ebpf.RaftLog.Format.{Json}
use raft_ebpf.Node.State.{RaftNode}
use raft_ebpf.Node.Client.{add_peer}
use raft_ebpf.Ipc.Requests.{Texts, Received, join, process_request}
use raft_ebpf.Network.Framing.{Wire}
use raft_ebpf.Network.Peers.{NetworkManager, register_peer}
use raft_ebpf.Network.Outgoing.{send_outgoing}
use raft_ebpf.Network.Unaddressed.{IsUnknown, send_outgoing-IsUnknown}
use raft_ebpf.Daemon.Config.{Config, PeerConfig}
use raft_ebpf.Daemon.Start.{add_peers, opened, new_node}
use raft_ebpf.Daemon.Boot.{Started, new_manager, register_peers, with_network, start_daemon}

module _ ⦃h : Heapless⦄ where
  -- each peer of the node has its address in the network manager, and no others have one
  abbrev pub Agree : HashMap String PeerInfo → HashMap String String → Type 0
  Agree peers addresses = (p : String) → get peers p ≡ map_option (new_peer p) (get addresses p)

  Agree-insert :
      (peers : HashMap String PeerInfo) (addresses : HashMap String String) (id address : String)
      → Agree peers addresses
      → Agree (insert peers id (new_peer id address)) (insert addresses id address)
  Agree-insert peers addresses id address agree p =
      let there = get-insert peers id p (new_peer id address) in
      let here = get-insert addresses id p address in
      elim (Bool-cases (id == p)) [
        | inl is ↦
            let same : id ≡ p = (text_eq.beq_iff id p).0 is in
            rw (there, here, is) (ap (λ q. some (new_peer q address)) same)
        | inr other ↦ rw (there, here, other) (agree p)
      ]

  Agree-register :
      (ps : List PeerConfig) (peers : HashMap String PeerInfo) (m : NetworkManager)
      → Agree peers m.peer_addresses
      → Agree (add_peers ps peers) (register_peers ps m).1.peer_addresses
        × ((register_peers ps m).1.connections ≡ m.connections)
  unfolding register_peers register_peer
  Agree-register [] peers m agree = (agree, refl)
  Agree-register (peer ∷ ps) peers m agree =
      Agree-register ps (insert peers peer.id (new_peer peer.id peer.address))
        (record m { peer_addresses = insert m.peer_addresses peer.id peer.address })
        (Agree-insert peers m.peer_addresses peer.id peer.address agree)

-- the value, where there is one
abbrev value_or : {A : Type 0} → A → Result A → A
value_or a (ok b) = b
value_or a (err e) = a
value_or a blocked = a

module _ ⦃h : Heapless⦄ ⦃j : Json⦄ where
  abbrev IsBooted : Started → Type 0
  IsBooted b =
      Agree b.node.peers b.network_manager.peer_addresses × (b.network_manager.connections ≡ [])

  with_network-IsBooted :
      (config : Config) (now : ℕ) (faults : List Bool) (b : Started)
      (x : Result (Unit {0}) × RaftLog)
      → with_network config faults (opened config now x) ≡ ok b
      → IsBooted b
  with_network-IsBooted config now faults b (ok u, log) e =
      subst IsBooted (ap (value_or b) e)
        (Agree-register config.peers [] (new_manager faults) (λ p. refl))
  with_network-IsBooted config now faults b (err x, log) e = absurd cc
  with_network-IsBooted config now faults b (blocked, log) e = absurd cc

  start_daemon-IsBooted :
      (config : Config) (now : ℕ) (disk : Disk) (faults : List Bool) (b : Started)
      → start_daemon config now disk faults ≡ ok b
      → IsBooted b
  unfolding start_daemon new_node
  start_daemon-IsBooted config now disk faults b e =
      with_network-IsBooted config now faults b (RaftLog.new disk) e

  -- The daemon starts with an address in the network manager for each peer of its node, the peer's
  -- own, and for nobody else.
  pub start_daemon-Agree :
      (config : Config) (now : ℕ) (disk : Disk) (faults : List Bool) (b : Started)
      → start_daemon config now disk faults ≡ ok b
      → Agree b.node.peers b.network_manager.peer_addresses
  start_daemon-Agree config now disk faults b e =
      (start_daemon-IsBooted config now disk faults b e).0

  module _ ⦃v : Values⦄ ⦃t : Texts⦄ ⦃w : Wire⦄ where
    peers-join :
        (tx now : ℕ) (later : Received) (id address : String) (n : RaftNode)
        → (process_request tx later now (join id address) n).1.peers
          ≡ insert n.peers id (new_peer id address)
    unfolding process_request add_peer
    peers-join tx now later id address n = elim (Bool-cases (same_role n.role leader)) [
      | inl leads ↦ elim (Bool-cases n.log_held) [
        | inl held ↦ rw (leads, held) refl
        | inr free ↦ rw (leads, free) refl
      ]
      | inr follows ↦ rw follows refl
    ]

    -- A peer that joins a running daemon, and that its configuration does not name, is a peer of the
    -- node from then on, at any state of the node; but the network manager knows no address of it and
    -- never opens a stream to it, whatever messages are to be sent.
    pub join-IsUnknown :
        (config : Config) (start : ℕ) (disk : Disk) (faults : List Bool) (b : Started) (tx now : ℕ)
        (later : Received) (id address : String) (n : RaftNode) (envelopes : List MessageEnvelope)
        → start_daemon config start disk faults ≡ ok b
        → get b.node.peers id ≡ none
        → (get (process_request tx later now (join id address) n).1.peers id
            ≡ some (new_peer id address))
          × IsUnknown id (send_outgoing envelopes b.network_manager).1
    join-IsUnknown config start disk faults b tx now later id address n envelopes e unnamed =
        let booted = start_daemon-IsBooted config start disk faults b e in
        let unaddressed : get b.network_manager.peer_addresses id ≡ none =
          unmapped (get b.network_manager.peer_addresses id) (sym (booted.0 id) ∙ unnamed) in
        (
          ap (λ p. get p id) (peers-join tx now later id address n)
              ∙ get-insert n.peers id id (new_peer id address)
              ∙ ap (λ c. if c then some (new_peer id address) else get n.peers id)
                  ((text_eq.beq_iff id id).1 refl),
          send_outgoing-IsUnknown envelopes id b.network_manager
              (unaddressed, ap (λ c. get c id) booted.1),
        )
      where
        unmapped : (o : Option String) → map_option (new_peer id) o ≡ none → o ≡ none
        unmapped none same = refl
        unmapped (some a) same = absurd cc
