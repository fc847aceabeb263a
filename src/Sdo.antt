-- ===== src/Sdo.antt =====
-- crates/powerlink-rs/src/sdo: the sequence layer, the commands, the transfers and the server.
pub mod Sequence
pub mod Handler
pub mod Command
pub mod Transfer
pub mod Download
pub mod Requests
pub mod Handlers
pub mod Server
pub mod Tests
