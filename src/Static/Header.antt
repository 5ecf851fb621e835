-- ===== src/Static/Header.antt =====
-- What the handlers read of a request's headers and of a file's metadata. `HeaderValue::to_str`
-- and `httpdate::parse_http_date` are of other crates: a value comes with the result of the first,
-- and the second is a parameter where it is called.
use rustee_web_framework.Prelude.{ℕ, Option}
use rustee_web_framework.Text.{Text}

pub record HeaderValue : Type 0 where
  pub bytes : Text
  pub text : Option Text

-- A `SystemTime` as its seconds and nanoseconds since the epoch, or `none` before that.
abbrev pub SystemTime : Type 0
SystemTime = Option (ℕ × ℕ)

pub record CacheValidators : Type 0 where
  pub etag : HeaderValue
  pub last_modified : HeaderValue
  pub modified : SystemTime
