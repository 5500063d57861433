-- ===== src/Server/Network.antt =====
-- src/server/network.rs: the handshake, and the tasks around the session. The ports are in
-- Server/Ports.
pub mod Handshake
pub mod Tasks
pub mod Serving
