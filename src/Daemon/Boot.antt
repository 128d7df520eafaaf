-- ===== src/Daemon/Boot.antt =====
-- The start of raft/src/main.rs: the node, and the network manager with the addresses of the peers.
use raft_ebpf.Prelude.{ℕ, text_eq, Bool, List, [], ◌∷◌, Result, ok, err, blocked, Exec, pure, ◌>>◌}
use raft_ebpf.Common.{Heapless}
use raft_ebpf.RaftLog.Files.{Disk}
use raft_ebpf.RaftLog.Format.{Json}
use raft_ebpf.Node.State.{RaftNode}
use raft_ebpf.Network.Peers.{NetworkManager, register_peer}
use raft_ebpf.Daemon.Config.{Config, PeerConfig}
use raft_ebpf.Daemon.Start.{new_node}

-- `NetworkManager::new`, with the outcomes that the calls of the network will have
abbrev pub new_manager : List Bool → NetworkManager
new_manager faults = record {
  connections = [];
  peer_addresses = [];
  next_stream = 0;
  written = [];
  faults = faults;
}

-- `for peer in &config.peers`
unfoldable pub register_peers : List PeerConfig → Exec NetworkManager (Unit {0})
unfolding register_peer
register_peers [] = pure tt
register_peers (peer ∷ peers) = do register_peer peer.id peer.address; register_peers peers

-- what the tasks of the daemon are given
pub record Started : Type 0 where
  pub node : RaftNode
  pub network_manager : NetworkManager

module _ ⦃h : Heapless⦄ ⦃j : Json⦄ where
  abbrev pub with_network : Config → List Bool → Result RaftNode → Result Started
  with_network config faults (ok node) = ok (record {
    node = node;
    network_manager = (register_peers config.peers (new_manager faults)).1;
  })
  with_network config faults (err e) = err e
  with_network config faults blocked = blocked

  -- `main` up to the start of the tasks, over the files of the data directory
  unfoldable pub start_daemon : Config → ℕ → Disk → List Bool → Result Started
  unfolding register_peers new_node
  start_daemon config now disk faults = with_network config faults (new_node config now disk)
