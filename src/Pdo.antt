-- ===== src/Pdo.antt =====
-- Process data: crates/powerlink-rs/src/pdo/mapping.rs and the validation of a mapping.
pub mod Mapping
pub mod Validator
pub mod Tests
