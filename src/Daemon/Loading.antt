-- ===== src/Daemon/Loading.antt =====
-- Which configuration files load, and what a file that leaves the timing out gives.
use raft_ebpf.Prelude.{
  String, ◌≡◌, refl, ◌↔◌, ap, ◌∙◌, some-inj, Option, none, some, List, [], ◌∷◌, All, ok, unwrap_or,
  Option-cases, inl, inr,
}
use raft_ebpf.Daemon.Config.{
  Config, ServerConfig, TimingConfig, EbpfConfig, PeerConfig, ConfigTable, ServerTable, PeerTable,
  Toml, server_of, read_server, peer_of, cons_peer, read_peers, read_timing, read_ebpf, config_of,
  read_config, loaded_config, load, HasBoth, IsCompleteServer, IsComplete,
}

server_of-HasBoth :
    (a b : Option String) (t : ServerTable)
    → ((s : ServerConfig) × (server_of a b t ≡ some s)) ↔ HasBoth a b
server_of-HasBoth (some a) (some b) t = (λ x. tt, λ x. (_, refl))
server_of-HasBoth (some a) none t = (λ x. absurd cc, λ x. absurd x)
server_of-HasBoth none b t = (λ x. absurd cc, λ x. absurd x)

read_server-IsCompleteServer :
    (o : Option ServerTable) → ((s : ServerConfig) × (read_server o ≡ some s)) ↔ IsCompleteServer o
read_server-IsCompleteServer none = (λ x. absurd cc, λ x. absurd x)
read_server-IsCompleteServer (some t) = server_of-HasBoth t.node_id t.listen_addr t

cons_peer_found :
    (p : Option PeerConfig) (ps : Option (List PeerConfig))
    → ((l : List PeerConfig) × (cons_peer p ps ≡ some l))
      ↔ (((x : PeerConfig) × (p ≡ some x)) × ((l : List PeerConfig) × (ps ≡ some l)))
cons_peer_found (some p) (some ps) = (λ x. ((p, refl), (ps, refl)), λ x. (p ∷ ps, refl))
cons_peer_found (some p) none = (λ x. absurd cc, λ x. absurd cc)
cons_peer_found none ps = (λ x. absurd cc, λ x. absurd cc)

peer_of-HasBoth : (a b : Option String) → ((p : PeerConfig) × (peer_of a b ≡ some p)) ↔ HasBoth a b
peer_of-HasBoth (some a) (some b) = (λ x. tt, λ x. (_, refl))
peer_of-HasBoth (some a) none = (λ x. absurd cc, λ x. absurd x)
peer_of-HasBoth none b = (λ x. absurd cc, λ x. absurd x)

read_peers-All :
    (ts : List PeerTable)
    → ((l : List PeerConfig) × (read_peers ts ≡ some l))
      ↔ All (λ (p : PeerTable). HasBoth p.id p.address) ts
read_peers-All [] = (λ x. tt, λ x. ([], refl))
read_peers-All (t ∷ ts) =
    let (found, build) = cons_peer_found (peer_of t.id t.address) (read_peers ts) in
    let (one, one_back) = peer_of-HasBoth t.id t.address in
    let (rest, rest_back) = read_peers-All ts in
    (λ x. (one (found x).0, rest (found x).1), λ x. build (one_back x.0, rest_back x.1))

config_of_found :
    (s : Option ServerConfig) (ps : Option (List PeerConfig)) (timing : TimingConfig)
    (ebpf : EbpfConfig)
    → ((c : Config) × (config_of s ps timing ebpf ≡ some c))
      ↔ (((x : ServerConfig) × (s ≡ some x)) × ((l : List PeerConfig) × (ps ≡ some l)))
config_of_found (some s) (some ps) timing ebpf = (λ x. ((s, refl), (ps, refl)), λ x. (_, refl))
config_of_found (some s) none timing ebpf = (λ x. absurd cc, λ x. absurd cc)
config_of_found none ps timing ebpf = (λ x. absurd cc, λ x. absurd cc)

table-IsComplete :
    (t : ConfigTable) → ((c : Config) × (read_config (some t) ≡ some c)) ↔ IsComplete t
table-IsComplete t =
    let (found, build) =
      config_of_found (read_server t.server) (read_peers (unwrap_or t.peers []))
        (read_timing t.timing) (read_ebpf t.ebpf) in
    let (server, server_back) = read_server-IsCompleteServer t.server in
    let (peers, peers_back) = read_peers-All (unwrap_or t.peers []) in
    (λ x. (server (found x).0, peers (found x).1), λ x. build (server_back x.0, peers_back x.1))

parsed_ok : (o : Option Config) (c : Config) → loaded_config o ≡ ok c → o ≡ some c
parsed_ok none c e = absurd cc
parsed_ok (some d) c e = cc

ok_none : (c : Config) → loaded_config none ≡ ok c → ⊥
ok_none c e = cc

module _ ⦃x : Toml⦄ where
  -- A configuration loads exactly if its file can be read and is TOML, the server has its name and
  -- its address, and every peer has both too; every other key may be missing.
  pub load-IsComplete :
      (file : Option String)
      → ((c : Config) × (load file ≡ ok c)) ↔ (
          (content : String) × (t : ConfigTable) × (file ≡ some content)
          × (x.parse content ≡ some t)
          × IsComplete t)
  unfolding load
  load-IsComplete none = (λ r. absurd cc, λ r. absurd cc)
  load-IsComplete (some content) = (
    λ (c, loaded). elim (Option-cases (x.parse content)) [
      | inl broken ↦ absurd (ok_none c (rw broken at loaded))
      | inr (t, read) ↦ (
        content,
        t,
        refl,
        read,
        (table-IsComplete t).0 (c, parsed_ok (read_config (some t)) c (rw read at loaded)),
      )
    ],
    λ (other, t, same, read, complete).
        let (c, built) = (table-IsComplete t).1 complete in
        (
          c,
          ap loaded_config
              (ap read_config (ap x.parse (some-inj content other same) ∙ read) ∙ built),
        ),
  )
