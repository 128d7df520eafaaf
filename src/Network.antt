-- ===== src/Network.antt =====
-- raft/src/network.rs: framing of messages, connections, and the loop over the messages to peers.
pub mod Framing
pub mod RoundTrip
pub mod Connection
pub mod Frames
pub mod Receive
pub mod Stream
pub mod Peers
pub mod Sending
pub mod Outgoing
pub mod Lasting
pub mod Departing
pub mod Unaddressed
