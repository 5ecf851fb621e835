-- ===== src/Static/Conditional.antt =====
-- crates/rustee-static/src/response.rs: whether a request's preconditions let a file be answered as
-- not modified. The values of `If-None-Match` and of `If-Modified-Since` are lists in the order of
-- the request.
pub mod Tags
use rustee_web_framework.Prelude.{
  ℕ, Bool, true, false, ◌||◌, Option, none, some, List, [], ◌∷◌, leb, ◌==◌, any,
}
use rustee_web_framework.Text.{Text, eqb, codes, strip_prefix}
use rustee_web_framework.Text.Trim.{trim, trim_matches}
use rustee_web_framework.Text.Split.{split}
use rustee_web_framework.Static.Header.{HeaderValue, SystemTime, CacheValidators}
use rustee_web_framework.Static.Range.{truncate_to_seconds}

-- `u8::is_ascii_whitespace`, which `trim_ascii` reads.
abbrev pub is_ascii_whitespace : ℕ → Bool
is_ascii_whitespace c = c == 32 || c == 9 || c == 10 || c == 12 || c == 13

unfoldable pub strip_weak_prefix : Text → Text
strip_weak_prefix value = elim (strip_prefix (codes "W/") (trim value)) [
  | none ↦ trim value
  | some tag ↦ tag
]

unfoldable pub weak_etag_matches : Text → Text → Bool
unfolding strip_weak_prefix
weak_etag_matches candidate current = eqb (strip_weak_prefix candidate) (strip_weak_prefix current)

abbrev pub tag_matches : Text → Text → Bool
tag_matches current candidate = eqb candidate (codes "*") || weak_etag_matches candidate current

abbrev pub value_matches : Text → HeaderValue → Bool
value_matches current value = elim (value.text) [
  | none ↦ false
  | some text ↦ any (λ part. tag_matches current (trim part)) (split b',' text)
]

-- The outcome of `if_none_match` when the header is there.
unfoldable pub match_tags : List HeaderValue → Option CacheValidators → Bool
match_tags values none =
    any (λ value. eqb (trim_matches is_ascii_whitespace value.bytes) (codes "*")) values
match_tags values (some validators) = elim (validators.etag.text) [
  | none ↦ false
  | some current ↦ any (value_matches current) values
]

unfoldable pub if_none_match : List HeaderValue → Option CacheValidators → Option Bool
unfolding match_tags
if_none_match [] validators = none
if_none_match (value ∷ values) validators = some (match_tags (value ∷ values) validators)

module _ (parse_http_date : Text → Option ℕ) where
  unfoldable pub if_modified_since : List HeaderValue → SystemTime → Bool
  unfolding truncate_to_seconds
  if_modified_since [] modified = false
  if_modified_since (value ∷ other ∷ values) modified = false
  if_modified_since (value ∷ []) modified = elim (value.text) [
    | none ↦ false
    | some text ↦ elim (parse_http_date text) [
      | none ↦ false
      | some since ↦ elim (truncate_to_seconds modified) [
        | none ↦ false
        | some seconds ↦ leb seconds since
      ]
    ]
  ]

  unfoldable pub is_not_modified :
      List HeaderValue → List HeaderValue → Option CacheValidators → Bool
  unfolding if_none_match if_modified_since
  is_not_modified none_match modified_since validators =
      elim (if_none_match none_match validators) [
        | some matches ↦ matches
        | none ↦ elim validators [
          | none ↦ false
          | some present ↦ if_modified_since modified_since present.modified
        ]
      ]
