-- ===== src/Static/Range/Requested.antt =====
-- crates/rustee-static/src/range.rs: what `requested_range` answers.
use rustee_web_framework.Prelude.{
  ℕ, ◌≤◌, ◌<◌, max, ◌≡◌, refl, ◌↔◌, inl, inr, false, Option, some, List, [], ◌∷◌, ltb,
  if◌then◌else◌, is_empty, length, arith, All, Bool-cases, Option-cases,
}
use rustee_web_framework.Text.{Text, codes, eq_ignore_ascii_case}
use rustee_web_framework.Text.Number.{u64_bound}
use rustee_web_framework.Text.Split.{split, split_once}
use rustee_web_framework.Text.Trim.{trim}
use rustee_web_framework.Static.Header.{HeaderValue, CacheValidators}
use rustee_web_framework.Static.Range.{
  ByteRange, RequestedRange, full, unsatisfiable, partial, multipart, classify, collect_ranges,
  parse_range_set, merge, merge_from, insert_range, sort_ranges, max_multipart_ranges,
  requested_range, if_range_matches,
}
use rustee_web_framework.Static.Range.Bounds.{Within, collect_ranges-Within}
use rustee_web_framework.Static.Range.Merge.{Separated, Covered, merge-sort_ranges}

-- A response for a file of `n` bytes can be made of the outcome: the ranges are of the file, and
-- several are in order, apart from each other and at most sixteen.
abbrev pub IsServable : ℕ → RequestedRange → Type 0
IsServable n full = Unit
IsServable n unsatisfiable = Unit
IsServable n (partial range) = Within n range
IsServable n (multipart ranges) =
    All (Within n) ranges
    × Separated ranges
    × (2 ≤ length ranges)
    × (length ranges ≤ max_multipart_ranges)

-- The bytes of the outcome are those of the ranges.
abbrev pub SameBytes : List ByteRange → RequestedRange → Type 0
SameBytes ranges full = ⊥
SameBytes ranges unsatisfiable = Unit
SameBytes ranges (partial range) = (b : ℕ) → Covered b (range ∷ []) ↔ Covered b ranges
SameBytes ranges (multipart parts) = (b : ℕ) → Covered b parts ↔ Covered b ranges

classify-IsServable :
    (n : ℕ) (ranges : List ByteRange)
    → is_empty ranges ≡ false
    → All (Within n) ranges
    → Separated ranges
    → IsServable n (classify ranges)
unfolding classify
classify-IsServable n [] e h s = cc
classify-IsServable n (range ∷ []) e (w, h) s = w
classify-IsServable n (range ∷ next ∷ ranges) e h s =
    elim (Bool-cases (ltb max_multipart_ranges (length (range ∷ next ∷ ranges)))) [
      | inl many ↦ rw (many, classify) tt
      | inr few ↦ rw (few, classify) (h, s, omega arith, ground arith)
    ]

classify-SameBytes :
    (ranges parts : List ByteRange)
    → ((b : ℕ) → Covered b parts ↔ Covered b ranges)
    → SameBytes ranges (classify parts)
unfolding classify
classify-SameBytes ranges [] h = h
classify-SameBytes ranges (range ∷ []) h = h
classify-SameBytes ranges (range ∷ next ∷ parts) h =
    elim (Bool-cases (ltb max_multipart_ranges (length (range ∷ next ∷ parts)))) [
      | inl many ↦ rw (many, classify) tt
      | inr few ↦ rw (few, classify) h
    ]

-- `parse_range_set` after its first loop.
abbrev answer : List ByteRange → RequestedRange
answer ranges = if is_empty ranges then unsatisfiable else classify (merge (sort_ranges ranges))

insert_range-ne-nil :
    (range : ByteRange) (ranges : List ByteRange) → is_empty (insert_range range ranges) ≡ false
unfolding insert_range
insert_range-ne-nil range [] = refl
insert_range-ne-nil range (other ∷ ranges) = ground arith

merge_from-ne-nil :
    (range : ByteRange) (ranges : List ByteRange) → is_empty (merge_from range ranges) ≡ false
unfolding merge_from
merge_from-ne-nil range [] = refl
merge_from-ne-nil range (other ∷ ranges) =
    ground (arith, merge_from-ne-nil (record range { end = max range.end other.end }) ranges)

merge-ne-nil : (ranges : List ByteRange) → is_empty ranges ≡ false → is_empty (merge ranges) ≡ false
unfolding merge
merge-ne-nil [] h = h
merge-ne-nil (range ∷ ranges) h = merge_from-ne-nil range ranges

sort_ranges-ne-nil :
    (ranges : List ByteRange) → is_empty ranges ≡ false → is_empty (sort_ranges ranges) ≡ false
unfolding sort_ranges
sort_ranges-ne-nil [] h = h
sort_ranges-ne-nil (range ∷ ranges) h = insert_range-ne-nil range (sort_ranges ranges)

answer-IsServable :
    (n : ℕ) (ranges : List ByteRange)
    → n < u64_bound
    → All (Within n) ranges
    → IsServable n (answer ranges)
answer-IsServable n [] u h = tt
answer-IsServable n (range ∷ ranges) u h =
    let (within, separated, covered) = merge-sort_ranges n (range ∷ ranges) u h in
    classify-IsServable n (merge (sort_ranges (range ∷ ranges)))
      (merge-ne-nil (sort_ranges (range ∷ ranges)) (sort_ranges-ne-nil (range ∷ ranges) refl))
      within separated

answer-SameBytes :
    (n : ℕ) (ranges : List ByteRange)
    → n < u64_bound
    → All (Within n) ranges
    → SameBytes ranges (answer ranges)
answer-SameBytes n [] u h = tt
answer-SameBytes n (range ∷ ranges) u h =
    let (within, separated, covered) = merge-sort_ranges n (range ∷ ranges) u h in
    classify-SameBytes (range ∷ ranges) (merge (sort_ranges (range ∷ ranges))) covered

-- For a file whose length is a `u64`, a range set whose members are read as `ranges` is answered by those bytes of the file that the
-- members select, no more and no fewer, unless it is answered as unsatisfiable.
pub parse_range_set-SameBytes :
    (specifier : Text) (n : ℕ) (ranges : List ByteRange)
    → n < u64_bound
    → collect_ranges 0 (split b',' specifier) n [] ≡ some ranges
    → SameBytes ranges (parse_range_set specifier n)
unfolding parse_range_set
parse_range_set-SameBytes specifier n ranges u e =
    rw (e, parse_range_set)
      (answer-SameBytes n ranges u
        (collect_ranges-Within 0 (split b',' specifier) n [] ranges tt e))

parse_range_set-IsServable :
    (specifier : Text) (n : ℕ) → n < u64_bound → IsServable n (parse_range_set specifier n)
unfolding parse_range_set
parse_range_set-IsServable specifier n u =
    elim (Option-cases (collect_ranges 0 (split b',' specifier) n [])) [
      | inl refused ↦ rw (refused, parse_range_set) tt
      | inr (ranges, e) ↦
          rw (e, parse_range_set)
            (answer-IsServable n ranges u
              (collect_ranges-Within 0 (split b',' specifier) n [] ranges tt e))
    ]

module _ (parse_http_date : Text → Option ℕ) where
  one_value :
      (value : HeaderValue) (if_range : List HeaderValue) (n : ℕ) (v : Option CacheValidators)
      → n < u64_bound
      → IsServable n (requested_range parse_http_date (value ∷ []) if_range n v)
  unfolding requested_range
  one_value value if_range n v u = elim (Option-cases value.text) [
    | inl opaque ↦ rw (opaque, requested_range) tt
    | inr (text, read) ↦ elim (Option-cases (split_once b'=' (trim text))) [
      | inl no_unit ↦ rw (read, requested_range) (rw no_unit tt)
      | inr ((unit, specifier), cut) ↦
          rw (read, requested_range)
            (rw cut (elim (Bool-cases (eq_ignore_ascii_case unit (codes "bytes"))) [
              | inr other ↦ rw other tt
              | inl bytes ↦ elim (Bool-cases (if_range_matches parse_http_date if_range v)) [
                | inr stale ↦ rw (bytes, stale) tt
                | inl fresh ↦ rw (bytes, fresh) (parse_range_set-IsServable (trim specifier) n u)
              ]
            ]))
    ]
  ]

  -- Whatever the headers say, the outcome for a file of `n` bytes, a `u64`, can be served: each range lies
  -- within the file and is not empty, and several are two to sixteen, in order and with a byte of
  -- none of them between each two.
  pub requested_range-IsServable :
      (values if_range : List HeaderValue) (n : ℕ) (v : Option CacheValidators)
      → n < u64_bound
      → IsServable n (requested_range parse_http_date values if_range n v)
  unfolding requested_range
  requested_range-IsServable [] if_range n v u = tt
  requested_range-IsServable (value ∷ []) if_range n v u = one_value value if_range n v u
  requested_range-IsServable (value ∷ other ∷ values) if_range n v u = tt
