-- ===== src/Client.antt =====
-- The client: src/client.
pub mod Bootstrap
pub mod Escape
pub mod Floats
pub mod Frame
pub mod Echo
pub mod Terminal
pub mod Session
pub mod Lifecycle
pub mod Network
pub mod Paint
