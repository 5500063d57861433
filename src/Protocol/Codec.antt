-- ===== src/Protocol/Codec.antt =====
-- src/protocol/codec.rs: the interface `PacketCodec`, and its implementations with and without
-- encryption. `&self` methods that change the fragment buffer behind its lock return the new codec.
pub mod Interface
pub mod Chunks
pub mod ChaCha
pub mod Null
pub mod Opening
pub mod Delivery
pub mod Requests
pub use Interface.*
