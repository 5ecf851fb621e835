-- ===== src/Static/Tests.antt =====
-- Byte ranges and multipart bodies at concrete headers and files.
use rustee_web_framework.Text.Split.{join}
use rustee_web_framework.Static.Path.{
  is_utf8, valid_mount_path, StaticFiles, StaticFilesError, at_mount, relative_path,
}
use rustee_web_framework.Static.Path.Safe.{
  IsSafe, IsPlain, relative_path-IsSafe, relative_path-join,
}
use rustee_web_framework.Text.Trim.{trim}
use rustee_web_framework.Prelude.{
  ℕ, ◌++◌, ◌≡◌, ◌<◌, refl, ◌↔◌, Option, none, some, List, [], ◌∷◌, All, Any, true, arith, length,
}
use rustee_web_framework.Prelude.Result.{ok, err}
use rustee_web_framework.Text.{
  ends_with, contains, starts_with, strip_prefix, byte_len, Text, codes,
}
use rustee_web_framework.Text.Split.{split_once, split}
use rustee_web_framework.Text.Number.{decimal, parse_u64, u64_bound}
use rustee_web_framework.Static.Header.{CacheValidators, HeaderValue}
use rustee_web_framework.Static.Range.{
  range_len, ByteRange, RequestedRange, multipart, parse_range_member, collect_ranges, merge,
  sort_ranges, parse_range_set, requested_range,
}
use rustee_web_framework.Static.Range.Bounds.{Within, span, Spells}
use rustee_web_framework.Static.Range.Requested.{
  SameBytes, IsServable, parse_range_set-SameBytes, requested_range-IsServable,
}
use rustee_web_framework.Static.Conditional.{weak_etag_matches, is_not_modified}
use rustee_web_framework.Static.Conditional.Tags.{Asks, is_not_modified_iff}
use rustee_web_framework.Static.Multipart.{
  multipart_closing_boundary, multipart_part_header, multipart_content_length, multipart_file_body,
}
use rustee_web_framework.Static.Multipart.Length.{size, size-multipart_file_body}

abbrev range : ℕ → ℕ → ByteRange
range a z = record { start = a; end = z }

overlapping : parse_range_set (codes "0-5, 3-9,20-") 30 ≡ multipart (range 0 9 ∷ range 20 29 ∷ [])
unfolding parse_range_set collect_ranges split parse_range_member split_once trim parse_u64 merge
    sort_ranges
overlapping = refl

adjacent : parse_range_set (codes "0-5,6-9,-1") 10 ≡ RequestedRange.partial (range 0 9)
unfolding parse_range_set collect_ranges split parse_range_member split_once trim parse_u64 merge
    sort_ranges
adjacent = refl

-- A position may be written with a plus sign, as `u64::from_str` reads it.
signed : parse_range_set (codes "+0-+5") 10 ≡ RequestedRange.partial (range 0 5)
unfolding parse_range_set collect_ranges split parse_range_member split_once trim parse_u64 merge
    sort_ranges
signed = refl

small : 30 < u64_bound
small = omega arith

members :
    collect_ranges 0 (split b',' (codes "0-5, 3-9,20-")) 30 []
    ≡ some (range 0 5 ∷ range 3 9 ∷ range 20 29 ∷ [])
unfolding collect_ranges split parse_range_member split_once trim parse_u64
members = refl

parse_range_set-SameBytes_example :
    SameBytes (range 0 5 ∷ range 3 9 ∷ range 20 29 ∷ []) (parse_range_set (codes "0-5, 3-9,20-") 30)
parse_range_set-SameBytes_example =
    parse_range_set-SameBytes (codes "0-5, 3-9,20-") 30 (range 0 5 ∷ range 3 9 ∷ range 20 29 ∷ [])
      small members

abbrev no_date : Text → Option ℕ
no_date value = none

abbrev asked : HeaderValue
asked = record { bytes = codes "bytes=0-5,3-9,20-"; text = some (codes "bytes=0-5,3-9,20-") }

requested_range-IsServable_example : IsServable 30 (requested_range no_date (asked ∷ []) [] 30 none)
requested_range-IsServable_example =
    requested_range-IsServable no_date (asked ∷ []) [] 30 none small

spelled : Spells (codes "3-9") (span 3 9)
unfolding split split_once parse_u64
spelled = (codes "3", codes "9", refl, refl, refl, refl, refl)

parsed_span : parse_range_member (codes "3-9") 30 ≡ ok (some (range 3 9))
unfolding parse_range_member split_once parse_u64
parsed_span = refl

abbrev unsorted : List ByteRange
unsorted = range 20 29 ∷ range 3 9 ∷ range 0 5 ∷ []

unsorted-Within : All (Within 30) unsorted
unsorted-Within =
    ((omega arith, omega arith), ((omega arith, omega arith), ((omega arith, omega arith), tt)))

abbrev file : List ℕ
file = codes "0123456789"

length_given :
    multipart_content_length (codes "b") (codes "t") (range 0 1 ∷ range 5 7 ∷ []) 10 ≡ some 122
unfolding multipart_content_length byte_len multipart_part_header decimal range_len
    multipart_closing_boundary
length_given = refl

parts-Within : All (Within (length file)) (range 0 1 ∷ range 5 7 ∷ [])
parts-Within = ((omega arith, omega arith), ((omega arith, omega arith), tt))

size-multipart_file_body_example :
    size (multipart_file_body file (codes "t") (codes "b") (range 0 1 ∷ range 5 7 ∷ []) 10) ≡ 122
size-multipart_file_body_example =
    size-multipart_file_body file (codes "t") (codes "b") (range 0 1 ∷ range 5 7 ∷ []) 10 122
      parts-Within length_given

abbrev tags : HeaderValue
tags = record { bytes = codes "\"a-1\", W/\"b-2\""; text = some (codes "\"a-1\", W/\"b-2\"") }

abbrev current_tag : HeaderValue
current_tag = record { bytes = codes "W/\"a-1\""; text = some (codes "W/\"a-1\"") }

abbrev file_validators : CacheValidators
file_validators = record {
  etag = current_tag;
  last_modified = current_tag;
  modified = some (10, 0);
}

weakly_equal : is_not_modified no_date (tags ∷ []) [] (some file_validators) ≡ true
unfolding is_not_modified split trim weak_etag_matches strip_prefix
weakly_equal = refl

is_not_modified_iff_example :
    (is_not_modified no_date (tags ∷ []) [] (some file_validators) ≡ true)
    ↔ Any (Asks (codes "W/\"a-1\"")) (tags ∷ [])
is_not_modified_iff_example =
    is_not_modified_iff no_date (tags ∷ []) [] file_validators (codes "W/\"a-1\"") refl refl

abbrev files : StaticFiles
files = record { mount_path = codes "/static"; max_file_bytes = 100; streaming_threshold = none }

abbrev css : List Text
css = codes "css" ∷ codes "site.css" ∷ []

escaped_name : relative_path files (codes "/static/css/site%2Ecss") ≡ some (some css)
unfolding relative_path strip_prefix split
escaped_name = refl

refuses_traversal : relative_path files (codes "/static/%2e%2e/secret") ≡ none
unfolding relative_path strip_prefix split
refuses_traversal = refl

refuses_slash : relative_path files (codes "/static/a%2Fb") ≡ none
unfolding relative_path strip_prefix split
refuses_slash = refl

refuses_bad_bytes : relative_path files (codes "/static/%c0%af") ≡ none
unfolding relative_path strip_prefix split
refuses_bad_bytes = refl

elsewhere : relative_path files (codes "/statics") ≡ some none
unfolding relative_path strip_prefix
elsewhere = refl

mounted : at_mount (codes "/a/b") files ≡ ok (record files { mount_path = codes "/a/b" })
unfolding at_mount valid_mount_path starts_with contains ends_with split
mounted = refl

refuses_mount : at_mount (codes "/a/../b") files ≡ err StaticFilesError.invalid_mount_path
unfolding at_mount valid_mount_path starts_with contains ends_with split
refuses_mount = refl

relative_path-IsSafe_example : All IsSafe css
relative_path-IsSafe_example =
    relative_path-IsSafe files (codes "/static/css/site%2Ecss") css escaped_name

IsPlain-css : IsPlain (codes "css")
unfolding is_utf8
IsPlain-css =
    ((refl, (λ e. ground (arith, e)), (λ e. ground (arith, e)), refl, refl, refl, refl), refl)

relative_path-join_example :
    relative_path files (files.mount_path ++ (codes "/" ++ join (codes "/") (codes "css" ∷ [])))
    ≡ some (some (codes "css" ∷ []))
relative_path-join_example =
    relative_path-join files (codes "css") [] (λ e. ground (arith, e)) (IsPlain-css, tt)
