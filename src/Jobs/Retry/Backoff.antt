-- ===== src/Jobs/Retry/Backoff.antt =====
-- crates/rustee-jobs/src/delivery/retry.rs: the number of retries, and their delays.
use rustee_web_framework.Prelude.{
  two_pow_pos, ℕ, zero, suc, ◌+◌, ◌-◌, ◌*◌, ◌^◌, ◌≤◌, ◌<◌, min, ◌≡◌, true, false, Option, none,
  some, arith, leb,
}
use rustee_web_framework.Duration.{Duration, duration_max}
use rustee_web_framework.Jobs.Retry.{
  RetryPolicy, DeliveryAction, is_valid, after_failure, delay_of, multiplier,
}

two_pow_mono : (n : ℕ) → 2 ^ n ≤ 2 ^ suc n
two_pow_mono n = omega arith

times_mono : (a m n : ℕ) → m ≤ n → a * m ≤ a * n
times_mono zero m n h = omega arith
times_mono (suc a) m n h = omega (arith, times_mono a m n h)

-- With a budget that is a `u16` and a first delay that a `Duration` holds, a retry follows only
-- under a valid policy and before the last delivery. It is the next attempt,
-- within the budget, and its delay lies between the first delay and the largest one.
pub after_failure-bounds :
    (policy : RetryPolicy) (attempt next : ℕ) (delay : Duration)
    → policy.max_deliveries ≤ 65535
    → policy.initial_backoff ≤ duration_max
    → after_failure policy attempt ≡ DeliveryAction.retry next delay
    → (is_valid policy ≡ true)
      × (0 < attempt)
      × (next ≡ attempt + 1)
      × (next ≤ policy.max_deliveries)
      × (policy.initial_backoff ≤ delay)
      × (delay ≤ policy.max_backoff)
unfolding after_failure is_valid delay_of
after_failure-bounds policy attempt next delay budget representable h =
    let positive = two_pow_pos (attempt - 1) in
    let grows = times_mono policy.initial_backoff 1 (multiplier (attempt - 1)) (omega arith) in
    ground arith

-- From the first attempt on, no delay is shorter than the one before it.
delay_of_grows :
    (policy : RetryPolicy) (attempt : ℕ)
    → 0 < attempt
    → delay_of policy attempt ≤ delay_of policy (attempt + 1)
unfolding delay_of
delay_of_grows policy attempt h =
    let later : (attempt + 1 - 1 ≡ suc (attempt - 1)) = omega arith in
    let doubled = two_pow_mono (attempt - 1) in
    let grows =
      times_mono policy.initial_backoff (multiplier (attempt - 1)) (multiplier (suc (attempt - 1)))
        (omega arith) in
    rw later (omega arith)

-- The deliveries of a job whose every delivery fails, from one attempt on, until the policy gives it
-- up; `none` when the fuel does not last until then.
unfoldable pub deliveries : ℕ → RetryPolicy → ℕ → Option ℕ
deliveries zero policy attempt = none
deliveries (suc fuel) policy attempt = elim (after_failure policy attempt) [
  | DeliveryAction.acknowledge ↦ some 1
  | DeliveryAction.dead_letter ↦ some 1
  | DeliveryAction.retry next delay ↦ elim (deliveries fuel policy next) [
    | none ↦ none
    | some count ↦ some (suc count)
  ]
]

deliveries_from :
    (fuel : ℕ) (policy : RetryPolicy) (attempt : ℕ)
    → is_valid policy ≡ true
    → policy.max_deliveries ≤ 65535
    → 0 < attempt
    → attempt ≤ policy.max_deliveries
    → policy.max_deliveries < fuel + attempt
    → deliveries fuel policy attempt ≡ some (policy.max_deliveries - attempt + 1)
unfolding deliveries after_failure
deliveries_from zero policy attempt v b p l f = absurd (omega arith)
deliveries_from (suc fuel) policy attempt v b p l f =
    let next : (leb policy.max_deliveries attempt ≡ false → min (attempt + 1) 65535 ≡ attempt + 1) =
      λ h. ground arith in
    let rest : (leb policy.max_deliveries attempt ≡ false
        → deliveries fuel policy (attempt + 1) ≡ some (policy.max_deliveries - (attempt + 1) + 1)) =
      λ h.
        deliveries_from fuel policy (attempt + 1) v b (omega arith) (ground arith) (omega arith) in
    ground arith

-- Under a valid policy with a budget that is a `u16`, a job whose every delivery fails is delivered exactly as often as the budget
-- says, and then given up.
pub deliveries-is_valid :
    (policy : RetryPolicy)
    → is_valid policy ≡ true
    → policy.max_deliveries ≤ 65535
    → deliveries policy.max_deliveries policy 1 ≡ some policy.max_deliveries
unfolding is_valid
deliveries-is_valid policy v b =
    let positive : (0 < policy.max_deliveries) = ground arith in
    let run =
      deliveries_from policy.max_deliveries policy 1 v b (omega arith) (omega arith)
        (omega arith) in
    let count : (policy.max_deliveries - 1 + 1 ≡ policy.max_deliveries) = omega arith in
    (rw count at run)
