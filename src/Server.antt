-- ===== src/Server.antt =====
-- The server: src/server.
pub mod Interface
pub mod Session
pub mod Ports
pub mod Network
pub mod Emulator
pub mod Terminal
pub mod Pty
