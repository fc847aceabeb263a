-- ===== src/Od.antt =====
-- The object dictionary: crates/powerlink-rs/src/od.
pub mod Value
pub mod Entry
pub mod Bytes
pub mod Dictionary
pub mod Commands
pub mod Write
pub mod Names
pub mod Configured
pub mod Restore
pub mod Predefined
pub mod Defaults
pub mod Storage
pub mod History
pub mod Samples
pub mod Tests
pub mod ReadWrite
