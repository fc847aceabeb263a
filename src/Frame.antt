-- ===== src/Frame.antt =====
-- crates/powerlink-rs/src/frame: the POWERLINK frames and their bytes. Each codec is a file, Wire
-- is the frame as it is sent and received, with crates/powerlink-rs/src/node/mod.rs.
pub mod Header
pub mod Padded
pub mod Soc
pub mod Soa
pub mod Asnd
pub mod Preq
pub mod Pres
pub mod Wire
pub mod Tests
