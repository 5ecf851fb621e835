-- ===== src/RateLimit/Layer.antt =====
-- crates/rustee-rate-limit/src/middleware.rs: the service. The store, the resolver of keys and the
-- application are the caller's, and header maps are another crate's, so they are parameters.
pub mod Admission
use rustee_web_framework.Prelude.{
  ℕ, ◌+◌, ◌-◌, ◌*◌, min, Bool, true, false, not, Option, none, some, ◌==◌, if◌then◌else◌,
}
use rustee_web_framework.Prelude.Result.{Result, ok, err}
use rustee_web_framework.Text.{Text, codes}
use rustee_web_framework.Text.Number.{decimal}
use rustee_web_framework.Duration.{Duration, as_secs, subsec_nanos}
use rustee_web_framework.RateLimit.Policy.{
  RateLimitKey, FixedWindow, RateLimitDecision, StoreFailurePolicy,
}

-- `rounded_seconds`: a `u64` that saturates.
unfoldable pub rounded_seconds : Duration → ℕ
rounded_seconds duration =
    min (as_secs duration + (if not (subsec_nanos duration == 0) then 1 else 0))
      18446744073709551615

-- What the layer is given. `insert_header` replaces the values of a header, `error_response` makes
-- the response of a status and a code.
pub record Deployment (Request Response Store App Failure : Type 0) : Type 0 where
  pub resolve : Request → Option RateLimitKey
  pub check : Store → RateLimitKey → FixedWindow → Result RateLimitDecision Failure × Store
  pub inner : App → Request → Response × App
  pub insert_header : Text → Text → Response → Response
  pub error_response : ℕ → Text → Response
  pub policy : FixedWindow
  pub failure_policy : StoreFailurePolicy

module _ {Request Response Store App Failure : Type 0}
    (layer : Deployment Request Response Store App Failure) where
  unfoldable pub with_rate_limit_headers : Response → RateLimitDecision → Bool → Response
  with_rate_limit_headers response decision include_retry_after =
      let reset_seconds = decimal (rounded_seconds decision.reset_after) in
      let limited = layer.insert_header (codes "ratelimit-reset") reset_seconds (
        layer.insert_header (codes "ratelimit-remaining") (decimal decision.remaining)
          (layer.insert_header (codes "ratelimit-limit") (decimal decision.limit) response)) in
      if include_retry_after
      then layer.insert_header (codes "retry-after") reset_seconds limited
      else limited

  -- The branches of `call` on the store's answer.
  unfoldable pub settle : Request → App → Result RateLimitDecision Failure → Response × App
  unfolding with_rate_limit_headers
  settle request app (ok decision) =
      let answer = layer.inner app request in
      if decision.allowed then (with_rate_limit_headers answer.0 decision false, answer.1) else (
        with_rate_limit_headers (layer.error_response 429 (codes "rate_limit_exceeded")) decision
            true,
        app,
      )
  settle request app (err failure) = elim layer.failure_policy [
    | StoreFailurePolicy.fail_open ↦ layer.inner app request
    | StoreFailurePolicy.fail_closed ↦
        (layer.error_response 503 (codes "rate_limit_unavailable"), app)
  ]

  -- `RateLimit::call`, on the store and the application.
  unfoldable pub call : Request → Store → App → Response × (Store × App)
  unfolding settle
  call request store app = elim (layer.resolve request) [
    | none ↦ (layer.error_response 400 (codes "rate_limit_key_missing"), (store, app))
    | some key ↦
        let checked = layer.check store key layer.policy in
        let settled = settle request app checked.0 in (settled.0, (checked.1, settled.1))
  ]
