-- ===== src/Nmt.antt =====
-- Network management: crates/powerlink-rs/src/nmt.
pub mod State
pub mod Event
pub mod Reset
pub mod Cn
pub mod Mn
pub mod Mirror
pub mod Events
pub mod Tests
