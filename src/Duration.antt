-- ===== src/Duration.antt =====
-- `std::time::Duration`, as its number of nanoseconds.
use rustee_web_framework.Prelude.{ℕ, ◌*◌, ◌/◌, ◌%◌, min}

abbrev pub Duration : Type 0
Duration = ℕ

-- `Duration::MAX`: 2 ^ 64 - 1 seconds and 999999999 nanoseconds.
abbrev pub duration_max : ℕ
duration_max = 18446744073709551615999999999

abbrev pub from_secs : ℕ → Duration
from_secs secs = secs * 1000000000

abbrev pub as_secs : Duration → ℕ
as_secs duration = duration / 1000000000

abbrev pub subsec_nanos : Duration → ℕ
subsec_nanos duration = duration % 1000000000

abbrev pub as_millis : Duration → ℕ
as_millis duration = duration / 1000000

-- `Duration::saturating_mul`.
abbrev pub saturating_mul : Duration → ℕ → Duration
saturating_mul duration factor = min (duration * factor) duration_max
