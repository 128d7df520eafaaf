-- ===== src/Ipc.antt =====
-- raft/src/ipc.rs: the connection of the command line tool, and its requests.
--
-- The source formats the texts of its answers; the model keeps their parts. What arrives on the reply
-- channel of a proposal within five seconds, after the call of `propose`, is an argument.
pub mod Requests
pub mod Membership
pub mod Proposal
pub mod Connection
pub mod Serving
pub mod Skipping
