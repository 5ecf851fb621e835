-- ===== src/Jobs/Tests.antt =====
-- The default retry policy.
use rustee_web_framework.Prelude.{◌≡◌, ◌≤◌, ◌<◌, ◌+◌, refl, true, some, arith}
use rustee_web_framework.Duration.{from_secs}
use rustee_web_framework.Jobs.Retry.{RetryPolicy, DeliveryAction, default, is_valid, after_failure}
use rustee_web_framework.Jobs.Retry.Backoff.{deliveries, after_failure-bounds, deliveries-is_valid}

abbrev five : RetryPolicy
five = record { max_deliveries = 5; initial_backoff = from_secs 1; max_backoff = from_secs 300 }

is_default : default ≡ five
unfolding default
is_default = refl

five_valid : is_valid five ≡ true
unfolding is_valid
five_valid = refl

third : after_failure five 3 ≡ DeliveryAction.retry 4 (from_secs 4)
unfolding after_failure
third = refl

last : after_failure five 5 ≡ DeliveryAction.dead_letter
unfolding after_failure
last = refl

after_failure-bounds_example :
    (is_valid five ≡ true)
    × (0 < 3)
    × (4 ≡ 3 + 1)
    × (4 ≤ five.max_deliveries)
    × (five.initial_backoff ≤ from_secs 4)
    × (from_secs 4 ≤ five.max_backoff)
after_failure-bounds_example =
    after_failure-bounds five 3 4 (from_secs 4) (omega arith) (omega arith) third

deliveries-is_valid_example : deliveries five.max_deliveries five 1 ≡ some five.max_deliveries
deliveries-is_valid_example = deliveries-is_valid five five_valid (omega arith)
