-- ===== src/Pipeline.antt =====
-- src/pipeline.rs: the message pipeline.
pub mod Ack
pub mod Pause
pub mod Bans
pub mod Gate
pub mod Timing
pub mod State
pub mod Terminal
pub mod Dispatch
pub mod Progress
pub mod Advance
pub mod Ingest
pub mod Replies
pub mod Sweep
pub mod Frame
