-- ===== src/Static/Range.antt =====
-- crates/rustee-static/src/range.rs: the byte ranges that a request asks for. The values of the
-- headers `Range` and `If-Range` are lists in the order of the request; a date is its seconds since
-- the epoch.
pub mod Bounds
pub mod Merge
pub mod Requested
use rustee_web_framework.Prelude.{
  ℕ, suc, ◌+◌, ◌-◌, ◌≤◌, ◌<◌, min, max, ◌≡◌, Bool, true, false, not, ◌&&◌, ◌||◌, Option, none, some,
  List, [], ◌∷◌, ◌++◌, ltb, leb, ◌==◌, if◌then◌else◌, is_empty, length,
}
use rustee_web_framework.Prelude.Result.{Result, ok, err}
use rustee_web_framework.Text.{Text, eqb, codes, eq_ignore_ascii_case}
use rustee_web_framework.Text.Trim.{trim}
use rustee_web_framework.Text.Split.{split, split_once}
use rustee_web_framework.Text.Number.{parse_u64, u64_bound}
use rustee_web_framework.Static.Header.{HeaderValue, SystemTime, CacheValidators}

abbrev pub max_multipart_ranges : ℕ
max_multipart_ranges = 16

abbrev pub max_range_members : ℕ
max_range_members = 64

pub record ByteRange : Type 0 where
  pub start : ℕ
  pub end : ℕ

-- `ByteRange::len`. On a range of the file the difference is exact.
unfoldable pub range_len : ByteRange → ℕ
range_len range = range.end - range.start + 1

pub data RequestedRange : Type 0 where
  full unsatisfiable : RequestedRange
  partial : ByteRange → RequestedRange
  multipart : List ByteRange → RequestedRange

-- `Err(())` is `err tt`, and `Ok(None)` a member that no byte of the file satisfies.
unfoldable pub parse_range_member : Text → ℕ → Result (Option ByteRange) (Unit {0})
parse_range_member specifier file_length = elim (split_once b'-' specifier) [
  | none ↦ err tt
  | some (first, last) ↦
      if is_empty first
      then elim (parse_u64 last) [
        | none ↦ err tt
        | some suffix_length ↦
            if suffix_length == 0 || file_length == 0
            then ok none
            else ok (some (record { start = file_length - suffix_length; end = file_length - 1 }))
      ]
      else elim (parse_u64 first) [
        | none ↦ err tt
        | some start ↦
            if leb file_length start
            then ok none
            else elim (if is_empty last then some (file_length - 1) else elim (parse_u64 last) [
              | none ↦ none
              | some e ↦ some (min e (file_length - 1))
            ]) [
              | none ↦ err tt
              | some end ↦
                  if ltb end start then err tt else ok (some (record { start = start; end = end }))
            ]
      ]
]

-- The first loop of `parse_range_set`; `none` is its `return RequestedRange::Unsatisfiable`.
unfoldable pub collect_ranges : ℕ → List Text → ℕ → List ByteRange → Option (List ByteRange)
collect_ranges index [] file_length ranges = some ranges
collect_ranges index (specifier ∷ rest) file_length ranges =
    if leb max_range_members index
    then none
    else elim (parse_range_member (trim specifier) file_length) [
      | err e ↦ none
      | ok none ↦ collect_ranges (suc index) rest file_length ranges
      | ok (some range) ↦ collect_ranges (suc index) rest file_length (ranges ++ range ∷ [])
    ]

-- The order of the keys `(start, end)`.
abbrev pub key_le : ByteRange → ByteRange → Bool
key_le a b = ltb a.start b.start || a.start == b.start && leb a.end b.end

-- `sort_unstable_by_key`: ranges with one key are equal, so every sorting gives this list.
unfoldable pub insert_range : ByteRange → List ByteRange → List ByteRange
insert_range range [] = range ∷ []
insert_range range (other ∷ ranges) =
    let rest = insert_range range ranges in
    if key_le range other then range ∷ other ∷ ranges else other ∷ rest

unfoldable pub sort_ranges : List ByteRange → List ByteRange
unfolding insert_range
sort_ranges [] = []
sort_ranges (range ∷ ranges) = insert_range range (sort_ranges ranges)

abbrev pub saturating_add_u64 : ℕ → ℕ → ℕ
saturating_add_u64 a b = min (a + b) (u64_bound - 1)

-- The second loop: `previous` is the last range of `normalized`, and those before it are done.
unfoldable pub merge_from : ByteRange → List ByteRange → List ByteRange
merge_from previous [] = previous ∷ []
merge_from previous (range ∷ ranges) = elim (leb range.start (saturating_add_u64 previous.end 1)) [
  | true ↦ merge_from (record previous { end = max previous.end range.end }) ranges
  | false ↦ previous ∷ merge_from range ranges
]

unfoldable pub merge : List ByteRange → List ByteRange
unfolding merge_from
merge [] = []
merge (range ∷ ranges) = merge_from range ranges

-- `match normalized.as_slice()`, after the test of the number of ranges.
unfoldable pub classify : List ByteRange → RequestedRange
classify normalized =
    if ltb max_multipart_ranges (length normalized) then unsatisfiable else elim normalized [
      | [] ↦ multipart []
      | range ∷ rest ↦ if is_empty rest then partial range else multipart (range ∷ rest)
    ]

unfoldable pub parse_range_set : Text → ℕ → RequestedRange
unfolding classify
parse_range_set specifier file_length =
    elim (collect_ranges 0 (split b',' specifier) file_length []) [
      | none ↦ unsatisfiable
      | some ranges ↦
          if is_empty ranges then unsatisfiable else classify (merge (sort_ranges ranges))
    ]

-- `truncate_to_seconds` of response.rs.
unfoldable pub truncate_to_seconds : SystemTime → Option ℕ
truncate_to_seconds none = none
truncate_to_seconds (some (seconds, nanos)) = some seconds

module _ (parse_http_date : Text → Option ℕ) where
  -- The date of a header that has exactly one value, readable as text and as a date.
  abbrev not_after : SystemTime → Text → Bool
  not_after modified value = elim (parse_http_date value) [
    | none ↦ false
    | some date ↦ elim (truncate_to_seconds modified) [ none ↦ false | some m ↦ leb m date ]
  ]

  unfoldable pub if_range_matches : List HeaderValue → Option CacheValidators → Bool
  unfolding truncate_to_seconds
  if_range_matches [] validators = true
  if_range_matches (value ∷ other ∷ values) validators = false
  if_range_matches (value ∷ []) none = false
  if_range_matches (value ∷ []) (some validators) = elim (value.text) [
    | none ↦ false
    | some text ↦ not_after validators.modified text
  ]

  unfoldable pub requested_range :
      List HeaderValue → List HeaderValue → ℕ → Option CacheValidators → RequestedRange
  requested_range [] if_range file_length validators = full
  requested_range (value ∷ other ∷ values) if_range file_length validators = unsatisfiable
  requested_range (value ∷ []) if_range file_length validators = elim (value.text) [
    | none ↦ unsatisfiable
    | some text ↦ elim (split_once b'=' (trim text)) [
      | none ↦ unsatisfiable
      | some (unit, specifier) ↦
          if not (eq_ignore_ascii_case unit (codes "bytes"))
          then full
          else if not (if_range_matches if_range validators)
          then full
          else parse_range_set (trim specifier) file_length
    ]
  ]
