-- ===== src/Mn.antt =====
-- The managing node's view of its controlled nodes, and what it schedules for them.
pub mod State
pub mod Validation
pub mod Ident
pub mod Isochronous
pub mod AsyncOnly
pub mod Bootup
pub mod Tests
