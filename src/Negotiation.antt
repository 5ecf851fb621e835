-- ===== src/Negotiation.antt =====
-- `Accept-Encoding` in crates/rustee-static/src/encoding.rs, and what else
-- crates/rustee-middleware/src/compression/negotiation.rs reads of headers. `Coding` has the latter's
-- own parser of `Accept-Encoding`. A header is the list of its values, each with the result of
-- `HeaderValue::to_str`.
pub mod Coding
pub mod Quality
pub mod Highest
pub mod Accepted
pub mod Choice
pub mod Compressible
mod Tests
use rustee_web_framework.Prelude.{
  ℕ, ◌+◌, ◌*◌, ◌≡◌, max, Bool, true, false, not, ◌&&◌, ◌||◌, Option, none, some, List, [], ◌∷◌,
  ◌++◌, leb, ltb, ◌==◌, if◌then◌else◌, any, all, length, is_empty,
}
use rustee_web_framework.Text.{
  Text, eqb, codes, byte_len, is_ascii_digit, eq_ignore_ascii_case, lowercase, starts_with,
  ends_with,
}
use rustee_web_framework.Text.Trim.{trim}
use rustee_web_framework.Text.Split.{split, split_first, split_once}
use rustee_web_framework.Text.Number.{parse_u16}

abbrev pub Values : Type 0
Values = List (Option Text)

-- The thousandths of a number of one, two or three digits.
abbrev pub scale : ℕ → ℕ → Option ℕ
scale digits parsed =
    if digits == 1
    then some (parsed * 100)
    else if digits == 2
    then some (parsed * 10)
    else if digits == 3
    then some (parsed * 1)
    else none

-- The part of `parse_quality` after the dot.
unfoldable pub parse_fraction : Text → Text → Option ℕ
parse_fraction whole fraction =
    if ltb 3 (byte_len fraction) || not (all is_ascii_digit fraction)
    then none
    else if eqb whole (codes "0")
    then elim (parse_u16 fraction) [ none ↦ none | some parsed ↦ scale (byte_len fraction) parsed ]
    else if eqb whole (codes "1") && all (λ c. c == b'0') fraction
    then some 1000
    else none

unfoldable pub parse_quality : Text → Option ℕ
unfolding parse_fraction
parse_quality value =
    if eqb value (codes "0") || eqb value (codes "0.")
    then some 0
    else if eqb value (codes "1") || eqb value (codes "1.")
    then some 1000
    else elim (split_once b'.' value) [
      | none ↦ none
      | some (whole, fraction) ↦ parse_fraction whole fraction
    ]

-- The value of the first parameter `q`.
unfoldable pub find_q : List Text → Option Text
find_q [] = none
find_q (parameter ∷ parameters) =
    let rest = find_q parameters in
    elim (split_once b'=' (trim parameter)) [
      | none ↦ rest
      | some (name, value) ↦
          if eq_ignore_ascii_case (trim name) (codes "q") then some (trim value) else rest
    ]

-- The token and the quality of one item of a value.
unfoldable pub item_token : Text → Text
item_token item = trim (split_first b';' item).0

unfoldable pub item_quality : Text → ℕ
unfolding find_q parse_quality
item_quality item = elim (find_q (split_first b';' item).1) [
  | none ↦ 1000
  | some value ↦ elim (parse_quality value) [ none ↦ 0 | some quality ↦ quality ]
]

abbrev pub raise : Option ℕ → ℕ → Option ℕ
raise none quality = some quality
raise (some old) quality = some (max old quality)

-- The variables of the loops of `encoding_quality`.
pub record Scan : Type 0 where
  pub explicit : Option ℕ
  pub wildcard : Option ℕ
  pub found : Bool

abbrev pub scan_item : Text → Text → Scan → Scan
scan_item token item scan =
    if eq_ignore_ascii_case (item_token item) token
    then record scan { explicit = raise scan.explicit (item_quality item) }
    else if eqb (item_token item) (codes "*")
    then record scan { wildcard = raise scan.wildcard (item_quality item) }
    else scan

unfoldable pub scan_items : Text → List Text → Scan → Scan
scan_items token [] scan = scan
scan_items token (item ∷ items) scan = scan_items token items (scan_item token item scan)

unfoldable pub scan_values : Text → Values → Scan → Scan
unfolding scan_items
scan_values token [] scan = scan
scan_values token (none ∷ values) scan = scan_values token values scan
scan_values token (some value ∷ values) scan =
    scan_values token values (scan_items token (split b',' value) (record scan { found = true }))

abbrev pub start : Scan
start = record { explicit = none; wildcard = none; found = false }

-- `explicit.or(wildcard).filter(|quality| *quality > 0)`.
abbrev pub positive : Option ℕ → Option ℕ
positive none = none
positive (some quality) = if ltb 0 quality then some quality else none

abbrev pub or : Option ℕ → Option ℕ → Option ℕ
or none b = b
or (some a) b = some a

pub data PrecompressedEncoding : Type 0 where
  brotli gzip : PrecompressedEncoding

abbrev pub encoding_token : PrecompressedEncoding → Text
encoding_token PrecompressedEncoding.brotli = codes "br"
encoding_token PrecompressedEncoding.gzip = codes "gzip"

unfoldable pub encoding_quality : Values → PrecompressedEncoding → Option ℕ
encoding_quality values encoding =
    let scan = scan_values (encoding_token encoding) values start in
    if scan.found then positive (or scan.explicit scan.wildcard) else none

abbrev prefer : Option ℕ → Option ℕ → List PrecompressedEncoding
prefer (some b) (some g) =
    if leb g b
    then PrecompressedEncoding.brotli ∷ PrecompressedEncoding.gzip ∷ []
    else PrecompressedEncoding.gzip ∷ PrecompressedEncoding.brotli ∷ []
prefer (some b) none = PrecompressedEncoding.brotli ∷ []
prefer none (some g) = PrecompressedEncoding.gzip ∷ []
prefer none none = []

unfoldable pub preferred_precompressed_encodings : Values → List PrecompressedEncoding
preferred_precompressed_encodings values =
    prefer (encoding_quality values PrecompressedEncoding.brotli)
      (encoding_quality values PrecompressedEncoding.gzip)

-- `is_compressible_content_type`.
unfoldable pub is_compressible_content_type : Text → Bool
is_compressible_content_type value =
    let media_type = lowercase (trim (split_first b';' value).0) in
    starts_with (codes "text/") media_type
    || any (eqb media_type) (
        codes "application/javascript"
        ∷ codes "application/json"
        ∷ codes "application/ld+json"
        ∷ codes "application/manifest+json"
        ∷ codes "application/xhtml+xml"
        ∷ codes "application/xml"
        ∷ codes "application/rss+xml"
        ∷ codes "application/atom+xml"
        ∷ codes "image/svg+xml"
        ∷ [])
    || ends_with (codes "+json") media_type
    || ends_with (codes "+xml") media_type

-- Some value of a header, split at its commas, has a member that passes the test.
abbrev pub has_member : (Text → Bool) → Values → Bool
has_member p values =
    any (λ value. elim value [ none ↦ false | some text ↦ any (λ s. p (trim s)) (split b',' text) ])
      values

unfoldable pub cache_control_no_transform : Values → Bool
cache_control_no_transform cache_control =
    has_member (λ directive. eq_ignore_ascii_case directive (codes "no-transform")) cache_control

-- `add_vary_accept_encoding`, on the values of `Vary`.
unfoldable pub add_vary_accept_encoding : Values → Values
add_vary_accept_encoding vary =
    if has_member
      (λ field. eqb field (codes "*") || eq_ignore_ascii_case field (codes "accept-encoding")) vary
    then vary
    else vary ++ some (codes "Accept-Encoding") ∷ []

-- What `is_compressible_response` reads of a response.
pub record ResponseHead : Type 0 where
  pub status : ℕ
  pub content_encoding : Values
  pub content_range : Values
  pub cache_control : Values
  pub content_length : Values
  pub content_type : Values

-- The first value of a header, if it is readable text and passes the test.
abbrev first_is : (Text → Bool) → Values → Bool
first_is p [] = false
first_is p (none ∷ values) = false
first_is p (some text ∷ values) = p text

unfoldable pub is_compressible_response : ResponseHead → Bool
unfolding is_compressible_content_type cache_control_no_transform
is_compressible_response response =
    if leb 100 response.status && ltb response.status 200
      || (response.status == 204 || response.status == 304)
      || not (is_empty response.content_encoding)
      || not (is_empty response.content_range)
      || cache_control_no_transform response.cache_control
    then false
    else if first_is (λ value. eqb (trim value) (codes "0")) response.content_length
    then false
    else first_is is_compressible_content_type response.content_type
