-- ===== src/Node.antt =====
-- raft/src/node.rs: the node, its handlers by the message they answer, and what they guarantee.
pub mod State
pub mod Apply
pub mod Heartbeat
pub mod Follow
pub mod Commit
pub mod Vote
pub mod Elect
pub mod Client
pub mod Dispatch
pub mod Quiet
pub mod Advance
pub mod Terms
pub mod Applied
pub mod Quorum
pub mod Adopt
pub mod Blocking
pub mod Matching
pub mod Accept
pub mod Ballot
pub mod Lead
pub mod Stand
pub mod Propose
pub mod Notify
pub mod Request
pub mod Replicate
pub mod Election
pub mod Locks
pub mod Deadlock
pub mod Minority
pub mod Counting
pub mod Frozen
pub mod Following
