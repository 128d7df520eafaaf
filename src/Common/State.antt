-- ===== src/Common/State.antt =====
-- raft-common/src/state.rs: roles, the persistent state and the peers.
use raft_ebpf.Prelude.{ℕ, String, Bool, true, false, Option, none}
use raft_ebpf.Common.Bounded.{Heapless, string_of}

pub data NodeRole : Type 0 where
  follower candidate leader : NodeRole

-- the derived `PartialEq`
abbrev pub same_role : NodeRole → NodeRole → Bool
same_role follower follower = true
same_role candidate candidate = true
same_role leader leader = true
same_role _ _ = false

pub record PersistentState : Type 0 where
  pub current_term : ℕ
  pub voted_for : Option String

-- `PersistentState::default`
abbrev pub default_state : PersistentState
default_state = record { current_term = 0; voted_for = none }

pub record PeerInfo : Type 0 where
  pub id : String
  pub address : String

-- `PeerInfo::new`
abbrev pub new_peer : ⦃h : Heapless⦄ → String → String → PeerInfo
new_peer id address = record { id = string_of 64 id; address = string_of 64 address }
