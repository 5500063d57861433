-- ===== src/Sync.antt =====
-- Server and client together: the frames of src/server/session.rs as src/client/session.rs takes
-- them.
pub mod Handshake
pub mod FirstKeys
pub mod Histories
pub mod Frames
pub mod Client
pub mod Reach
pub mod Numbers
pub mod Hearing
pub mod Queueing
pub mod World
pub mod Kept
pub mod Genuine
pub mod Shown
pub mod Steps
pub mod Serving
pub mod Processing
pub mod Feeding
