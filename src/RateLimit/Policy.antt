-- ===== src/RateLimit/Policy.antt =====
-- crates/rustee-rate-limit/src/policy.rs: keys, windows and decisions.
use rustee_web_framework.Prelude.{
  ℕ, ◌*◌, ◌%◌, ◌≤◌, ◌<◌, min, ◌≡◌, ◌↔◌, Bool, true, false, not, ◌||◌, arith, ltb, ◌==◌,
  if◌then◌else◌, any, is_empty,
}
use rustee_web_framework.Prelude.Result.{Result, ok, err}
use rustee_web_framework.Text.{Text, byte_len, is_control}
use rustee_web_framework.Text.Trim.{trim}
use rustee_web_framework.Duration.{Duration, as_millis, subsec_nanos}

abbrev pub max_key_bytes : ℕ
max_key_bytes = 256

pub record RateLimitKey : Type 0 where
  pub value : Text

pub record FixedWindow : Type 0 where
  pub limit : ℕ
  pub window : Duration
  pub window_millis : ℕ

pub data RateLimitConfigError : Type 0 where
  zero_limit invalid_window invalid_key : RateLimitConfigError

-- `RateLimitKey::new`.
unfoldable pub key_new : Text → Result RateLimitKey RateLimitConfigError
key_new value =
    if is_empty (trim value) || ltb max_key_bytes (byte_len value) || any is_control value
    then err RateLimitConfigError.invalid_key
    else ok (record { value = value })

-- `FixedWindow::new`.
unfoldable pub fixed_window_new : ℕ → Duration → Result FixedWindow RateLimitConfigError
fixed_window_new limit window =
    let window_millis : ℕ = as_millis window in
    if limit == 0
    then err RateLimitConfigError.zero_limit
    else if not (ltb window_millis 18446744073709551616)
    then err RateLimitConfigError.invalid_window
    else if window_millis == 0
        || not (subsec_nanos window % 1000000 == 0)
        || ltb 9223372036854775807 window_millis
    then err RateLimitConfigError.invalid_window
    else ok (record { limit = limit; window = window; window_millis = window_millis })

pub record RateLimitDecision : Type 0 where
  pub allowed : Bool
  pub limit : ℕ
  pub remaining : ℕ
  pub reset_after : Duration

-- `RateLimitDecision::allowed` and `RateLimitDecision::denied`.
unfoldable pub allow : FixedWindow → ℕ → Duration → RateLimitDecision
allow policy remaining reset_after = record {
  allowed = true;
  limit = policy.limit;
  remaining = min remaining policy.limit;
  reset_after = reset_after;
}

unfoldable pub deny : FixedWindow → Duration → RateLimitDecision
deny policy reset_after = record {
  allowed = false;
  limit = policy.limit;
  remaining = 0;
  reset_after = reset_after;
}

pub data StoreFailurePolicy : Type 0 where
  fail_closed fail_open : StoreFailurePolicy

-- A window is accepted exactly for a positive limit and a positive whole number of milliseconds that
-- an `i64` holds, and that number is the window's length to the nanosecond.
fixed_window_new_iff :
    (limit : ℕ) (window : Duration) (policy : FixedWindow)
    → (fixed_window_new limit window ≡ ok policy) ↔ (
        (0 < limit)
        × (policy.limit ≡ limit)
        × (policy.window ≡ window)
        × (policy.window_millis * 1000000 ≡ window)
        × (0 < policy.window_millis)
        × (policy.window_millis ≤ 9223372036854775807))
unfolding fixed_window_new
fixed_window_new_iff limit window policy = (λ h. ground arith, λ h. ground arith)
