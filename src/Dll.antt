-- ===== src/Dll.antt =====
-- The data link layer: crates/powerlink-rs/src/frame, its cycle state machines and error counters.
pub mod ErrorEntry
pub mod Error
pub mod CsMachine
pub mod MsMachine
pub mod Counters
pub mod MnCounters
pub mod Tests
