-- ===== src/Oidc.antt =====
-- crates/rustee-auth-oidc/src/browser_login: the login of a browser at an OpenID provider.
pub mod Values
pub mod Transaction
pub mod Flow
mod Tests
