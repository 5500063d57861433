-- ===== src/Client/Network.antt =====
-- src/client/network.rs: the handshake and the event loop.
pub mod Handshake
pub mod Events
