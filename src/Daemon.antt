-- ===== src/Daemon.antt =====
-- The daemon: its configuration (raft/src/config.rs), its start and its timers (raft/src/main.rs),
-- and what holds of a node over any run.
pub mod Sound
pub mod Safe
pub mod Handlers
pub mod Storing
pub mod Committing
pub mod Config
pub mod Loading
pub mod Start
pub mod Timers
pub mod Restart
pub mod Requests
pub mod Runs
pub mod Votes
pub mod Timing
pub mod Boot
pub mod Addresses
pub mod Freezing
pub mod Calls
pub mod Idle
