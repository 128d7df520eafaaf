-- ===== src/Network/Outgoing.antt =====
-- The loop of `NetworkManager::run` over the messages that the node sends.
use raft_ebpf.Prelude.{Result, ok, err, blocked, List, [], ◌∷◌, Exec, pure, ◌>>◌}
use raft_ebpf.Common.{MessageEnvelope}
use raft_ebpf.Network.Framing.{Wire}
use raft_ebpf.Network.Peers.{NetworkManager, send_message}

-- `if let Err(e) = … { warn!(…) }`
abbrev pub failure_logged : Result (Unit {0}) → Result (Unit {0})
failure_logged (ok u) = ok tt
failure_logged (err e) = ok tt
failure_logged blocked = blocked

module _ ⦃w : Wire⦄ where
  unfoldable pub send_logged : MessageEnvelope → Exec NetworkManager (Unit {0})
  unfolding send_message
  send_logged envelope m =
      let (r, m') = send_message envelope.to envelope m in (failure_logged r, m')

  -- as long as the channel gives messages
  unfoldable pub send_outgoing : List MessageEnvelope → Exec NetworkManager (Unit {0})
  unfolding send_logged
  send_outgoing [] = pure tt
  send_outgoing (envelope ∷ envelopes) = do send_logged envelope; send_outgoing envelopes
