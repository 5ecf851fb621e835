-- ===== src/Lib.antt =====
-- Verification of the request-handling core of the framework: what it decides about requests, with
-- the network, the file system and the runtime left out. Paths below are from the repository's root.
--
-- The parts, and the files that model them:
-- - Router: crates/rustee-router. `Router/Pattern` is pattern.rs (`RoutePattern::parse`, `matches`
--   and `is_equivalent_to`, `NestedPrefix::parse` is `parse_prefix`, and `strip`). `Router/Table` is
--   the state of app.rs and nesting.rs and its registration, `Router/Select` the choice of a route in
--   dispatch.rs, and `Router/Dispatch` the whole of `dispatch` with the calls of nested services.
-- - Static: crates/rustee-static. `Static/Range` is range.rs, `Static/Multipart` is
--   response/multipart.rs, `Static/Conditional` the preconditions of response.rs, and `Static/Path` the
--   configuration and the paths of config.rs.
-- - Negotiation: encoding.rs of crates/rustee-static and compression/negotiation.rs of
--   crates/rustee-middleware. Each has its own copy of the parser of `Accept-Encoding`: `Negotiation`
--   has the first, with what the second file reads of other headers, and `Negotiation/Coding` the second.
-- - TrustedProxy: crates/rustee-middleware/src/trusted_proxy. `TrustedProxy/Policy` is policy.rs,
--   `TrustedProxy/Forwarded` forwarded.rs, and `TrustedProxy/Layer` the service of layer.rs.
-- - RateLimit: policy.rs and middleware.rs of crates/rustee-rate-limit.
-- - Jobs: crates/rustee-jobs/src/delivery/retry.rs.
-- - Auth: crates/rustee-auth/src/policy/permission.rs.
--   `Auth/ConstantTime` is crates/rustee-auth/src/constant_time.rs.
-- - Session: crates/rustee-auth-session. `Session/Record` and `Session/Cookie` are model/session.rs and
--   model/cookie.rs, `Session/Memory` the store of model/in_memory.rs with the trait that it
--   implements, `Session/Manager` is model/manager.rs over any store, and `Session/Service` the
--   services of middleware.rs and middleware/csrf.rs, one behind the other.
-- - Oidc: the browser login of crates/rustee-auth-oidc/src/browser_login. `Oidc/Values` is oauth.rs of
--   crates/rustee-core, `Oidc/Transaction` is transaction.rs, and `Oidc/Flow` is flow.rs.
-- - Cache: crates/rustee-ai-cache. `Cache/Contracts` is contracts.rs, `Cache/Memory` in_memory.rs, and
--   `Cache/Completion` completion.rs over any cache.
-- - Json: crates/rustee-json/src/lib.rs.
-- - Ledger: the two ledgers of crates/rustee-ai-batch/src/in_memory.rs.
-- `AssocMap` is the map of the ledgers, the stores and the role policies, `Text` is what the code uses of
-- Rust's strings, `Duration` of its durations, and `Prelude` passes on the library's names. A module
-- below one of these holds the proofs that its name tells, and `Tests` runs the definitions and
-- applies the theorems at concrete inputs.
--
-- How state is modelled: an application is a record of its tables, and registration gives a new one.
-- A handler or an inner service is a function on requests, and a future is its result. An operation
-- under a lock is one step on the state behind the lock, and any interleaving of callers is a list of
-- steps. A Rust text is the list of its code points, a header the list of its values.
--
-- Parameters stand for the crates that are not in the repository: the parsers of http for header
-- values, paths and authorities, of httpdate for dates, of std::net for addresses, and for a
-- deployment's own store, resolver and application of the rate-limit layer. So do they for UUIDs,
-- URLs, the token endpoint and the verifier of a login, for the executor behind the cache, and for
-- what serde_json writes. A reading of a clock and a random draw are arguments.
--
-- Loops run over lists, so no fuel is needed, with two exceptions: the digits of a number, whose
-- fuel is the number itself, which each round divides by ten, and the deliveries of a job that always
-- fails, whose fuel is the policy's budget, since each delivery raises the attempt by one.
--
-- Not modelled: sockets, files, compression, the clients of brokers and databases, JSON and the
-- formatting of debug output.
pub mod AssocMap
pub mod Auth
pub mod Cache
pub mod Duration
pub mod Jobs
pub mod Json
pub mod Ledger
pub mod Negotiation
pub mod Oidc
pub mod Prelude
pub mod RateLimit
pub mod Router
pub mod Session
pub mod Static
pub mod Text
pub mod TrustedProxy
