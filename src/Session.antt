-- ===== src/Session.antt =====
-- crates/rustee-auth-session: server-side sessions, their cookie, and the services that restore
-- them and check CSRF tokens.
pub mod Record
pub mod Cookie
pub mod Memory
pub mod Manager
pub mod Service
mod Tests
