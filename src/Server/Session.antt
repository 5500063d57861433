-- ===== src/Server/Session.antt =====
-- src/server/session.rs: the authoritative session. Sequence numbers are `u64` and do not wrap here;
-- a socket address is a number.
pub mod State
pub mod Queue
pub mod Packets
pub mod Drain
pub mod InOrder
pub mod Delivery
pub mod Stream
pub mod Reliable
pub mod Newest
pub mod Syncing
pub mod Throttle
pub mod Settled
pub mod Handshakes
