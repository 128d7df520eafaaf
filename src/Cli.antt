-- ===== src/Cli.antt =====
-- raft-cli/src: the command line tool, its client of the daemon's socket and its commands.
pub mod Client
pub mod Commands
pub mod Messages
pub mod Fresh
pub mod Watching
pub mod Clock
pub mod Main
pub mod Joined
pub mod Reaching
