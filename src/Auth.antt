-- ===== src/Auth.antt =====
-- crates/rustee-auth/src/policy: what an authenticated principal may do.
pub mod ConstantTime
pub mod Permission
mod Tests
