-- ===== src/TrustedProxy.antt =====
-- crates/rustee-middleware/src/trusted_proxy: which peers may speak for a client, and what a
-- forwarded header may say.
pub mod Policy
pub mod Forwarded
pub mod Layer
mod Tests
