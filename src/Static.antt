-- ===== src/Static.antt =====
-- crates/rustee-static: byte ranges, cache validators, multipart bodies and precompressed variants.
pub mod Path
pub mod Header
pub mod Range
pub mod Multipart
pub mod Conditional
mod Tests
