-- ===== src/RateLimit.antt =====
-- crates/rustee-rate-limit/src: the policy of a fixed window, and the service that enforces it.
pub mod Policy
pub mod Layer
mod Tests
