-- ===== src/Jobs/Retry.antt =====
-- crates/rustee-jobs/src/delivery/retry.rs: the retry policy. An attempt is a `u16`.
pub mod Backoff
use rustee_web_framework.Prelude.{
  ℕ, ◌+◌, ◌-◌, ◌*◌, ◌^◌, min, Bool, true, false, not, ◌&&◌, ◌||◌, leb, ◌==◌, if◌then◌else◌,
}
use rustee_web_framework.Duration.{Duration, from_secs, saturating_mul}

pub record RetryPolicy : Type 0 where
  pub max_deliveries : ℕ
  pub initial_backoff : Duration
  pub max_backoff : Duration

pub data DeliveryAction : Type 0 where
  acknowledge : DeliveryAction
  retry : (next_attempt : ℕ) (delay : Duration) → DeliveryAction
  dead_letter : DeliveryAction

unfoldable pub default : RetryPolicy
default = record { max_deliveries = 5; initial_backoff = from_secs 1; max_backoff = from_secs 300 }

unfoldable pub is_valid : RetryPolicy → Bool
is_valid policy =
    not (policy.max_deliveries == 0)
    && not (policy.initial_backoff == 0)
    && leb policy.initial_backoff policy.max_backoff

-- `2_u32.saturating_pow(exponent)`.
abbrev pub multiplier : ℕ → ℕ
multiplier exponent = min (2 ^ exponent) 4294967295

unfoldable pub delay_of : RetryPolicy → ℕ → Duration
delay_of policy attempt =
    min (saturating_mul policy.initial_backoff (multiplier (attempt - 1))) policy.max_backoff

unfoldable pub after_failure : RetryPolicy → ℕ → DeliveryAction
unfolding is_valid delay_of
after_failure policy attempt =
    if not (is_valid policy) || attempt == 0 || leb policy.max_deliveries attempt
    then DeliveryAction.dead_letter
    else DeliveryAction.retry (min (attempt + 1) 65535) (delay_of policy attempt)
