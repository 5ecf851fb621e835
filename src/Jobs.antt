-- ===== src/Jobs.antt =====
-- crates/rustee-jobs/src/delivery: what a provider does with a job after a delivery.
pub mod Retry
mod Tests
