-- ===== src/Ledger.antt =====
-- crates/rustee-ai-batch/src/in_memory.rs: the ledgers that keep a batch from being submitted twice.
pub mod Submission
pub mod Artifact
mod Tests
