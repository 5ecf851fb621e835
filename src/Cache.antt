-- ===== src/Cache.antt =====
-- crates/rustee-ai-cache: the cache of AI responses.
pub mod Contracts
pub mod Memory
pub mod Completion
mod Tests
