-- ===== src/Client/Session.antt =====
-- src/client/session.rs: the mirror session. Sequence numbers are `u64` and do not wrap here. Hash
-- maps are walked in rising order of their keys.
pub mod State
pub mod Prepare
pub mod Receive
pub mod Stdin
pub mod Tick
