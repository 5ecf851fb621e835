-- ===== src/Router.antt =====
-- crates/rustee-router: route patterns, the application's route table, route selection, nested
-- services and dispatch.
pub mod Pattern
pub mod Table
pub mod Select
pub mod Dispatch
mod Tests
