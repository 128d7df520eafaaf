-- ===== src/Common.antt =====
-- raft-common/src: the messages, the states and the bounded strings that every part shares.
mod Bounded
mod Protocol
mod State
pub use Bounded.*
pub use Protocol.*
pub use State.*
