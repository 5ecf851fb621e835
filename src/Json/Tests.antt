-- ===== src/Json/Tests.antt =====
-- Writes against concrete limits.
use rustee_web_framework.Prelude.{◌≡◌, refl, true, [], ◌∷◌}
use rustee_web_framework.Prelude.Result.{ok, err}
use rustee_web_framework.Text.{codes}
use rustee_web_framework.Json.{BoundedJsonError, Writes, to_vec_bounded}
use rustee_web_framework.Json.Limit.{limited, to_vec_bounded-limited}

abbrev number : Writes
number = record { chunks = codes "4" ∷ codes "2" ∷ []; succeeds = true }

at_the_bound : to_vec_bounded number 2 ≡ ok (codes "42")
unfolding to_vec_bounded
at_the_bound = refl

above : to_vec_bounded number 1 ≡ err BoundedJsonError.too_large
unfolding to_vec_bounded
above = refl

to_vec_bounded-limited_example : to_vec_bounded number 1 ≡ limited number 1
to_vec_bounded-limited_example = to_vec_bounded-limited number 1
