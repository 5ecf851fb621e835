-- ===== src/Static/Range/Merge.antt =====
-- crates/rustee-static/src/range.rs: sorting and merging of ranges.
use rustee_web_framework.Prelude.{
  ℕ, ◌+◌, ◌≤◌, ◌<◌, max, ◌↔◌, ◌⊎◌, inl, inr, List, [], ◌∷◌, leb, arith, All, Any, Bool-cases,
  All-map_lem,
}
use rustee_web_framework.Text.Number.{u64_bound}
use rustee_web_framework.Static.Range.{
  ByteRange, key_le, insert_range, sort_ranges, merge_from, merge, saturating_add_u64,
}
use rustee_web_framework.Static.Range.Bounds.{Within, Holds}

-- Some range holds the byte.
abbrev pub Covered : ℕ → List ByteRange → Type 0
Covered b ranges = Any (Holds b) ranges

-- Each start is at most the later ones.
abbrev Ascends : List ByteRange → Type 0
Ascends [] = Unit
Ascends (range ∷ ranges) = All (λ other. range.start ≤ other.start) ranges × Ascends ranges

abbrev Gap : ByteRange → List ByteRange → Type 0
Gap range [] = Unit
Gap range (next ∷ ranges) = range.end + 1 < next.start

-- Between two ranges in turn there is a byte of neither.
abbrev pub Separated : List ByteRange → Type 0
Separated [] = Unit
Separated (range ∷ ranges) = Gap range ranges × Separated ranges

insert_range-All :
    (P : ByteRange → Type 0) (range : ByteRange) (ranges : List ByteRange)
    → P range
    → All P ranges
    → All P (insert_range range ranges)
unfolding insert_range
insert_range-All P range [] p h = (p, tt)
insert_range-All P range (other ∷ ranges) p (q, h) =
    ground (arith, insert_range-All P range ranges p h)

sort_ranges-All :
    (P : ByteRange → Type 0) (ranges : List ByteRange) → All P ranges → All P (sort_ranges ranges)
unfolding sort_ranges
sort_ranges-All P [] h = tt
sort_ranges-All P (range ∷ ranges) (p, h) =
    insert_range-All P range (sort_ranges ranges) p (sort_ranges-All P ranges h)

below_trans :
    (a b : ℕ) (ranges : List ByteRange)
    → a ≤ b
    → All (λ other. b ≤ other.start) ranges
    → All (λ other. a ≤ other.start) ranges
below_trans a b ranges h k = All-map_lem _ _ ranges (λ other le. omega arith) k

insert_range-Ascends :
    (range : ByteRange) (ranges : List ByteRange)
    → Ascends ranges
    → Ascends (insert_range range ranges)
unfolding insert_range
insert_range-Ascends range [] h = (tt, tt)
insert_range-Ascends range (other ∷ ranges) (p, h) = elim (Bool-cases (key_le range other)) [
  | inl le ↦
      let first : range.start ≤ other.start = ground arith in
      rw le ((first, below_trans range.start other.start ranges first p), (p, h))
  | inr gt ↦
      rw gt (insert_range-All _ range ranges (ground arith) p, insert_range-Ascends range ranges h)
]

sort_ranges-Ascends : (ranges : List ByteRange) → Ascends (sort_ranges ranges)
unfolding sort_ranges
sort_ranges-Ascends [] = tt
sort_ranges-Ascends (range ∷ ranges) =
    insert_range-Ascends range (sort_ranges ranges) (sort_ranges-Ascends ranges)

insert_range-Covered :
    (b : ℕ) (range : ByteRange) (ranges : List ByteRange)
    → Covered b (insert_range range ranges) ↔ Covered b (range ∷ ranges)
unfolding insert_range
insert_range-Covered b range [] = (λ h. h, λ h. h)
insert_range-Covered b range (other ∷ ranges) = ground (arith, insert_range-Covered b range ranges)

sort_ranges-Covered :
    (b : ℕ) (ranges : List ByteRange) → Covered b (sort_ranges ranges) ↔ Covered b ranges
unfolding sort_ranges
sort_ranges-Covered b [] = (λ h. h, λ h. h)
sort_ranges-Covered b (range ∷ ranges) =
    ground (arith, insert_range-Covered b range (sort_ranges ranges), sort_ranges-Covered b ranges)

-- Two ranges that overlap or touch hold together what the merged one holds.
merged_Holds :
    (b : ℕ) (previous range : ByteRange)
    → previous.start ≤ previous.end
    → range.start ≤ range.end
    → previous.start ≤ range.start
    → range.start ≤ previous.end + 1
    → Holds b (record previous { end = max previous.end range.end })
      ↔ (Holds b previous ⊎ Holds b range)
merged_Holds b previous range w v p near = ground arith

merged_covered :
    (b : ℕ) (previous range : ByteRange) (Result Later : Type 0)
    → previous.start ≤ previous.end
    → range.start ≤ range.end
    → previous.start ≤ range.start
    → range.start ≤ previous.end + 1
    → (Result ↔ (Holds b (record previous { end = max previous.end range.end }) ⊎ Later))
    → (Result ↔ (Holds b previous ⊎ (Holds b range ⊎ Later)))
merged_covered b previous range Result Later w v p near (to, from) =
    let (apart, together) = merged_Holds b previous range w v p near in
    (
      λ r. elim (to r) [
        | inl m ↦ elim (apart m) [ inl x ↦ inl x | inr y ↦ inr (inl y) ]
        | inr later ↦ inr (inr later)
      ],
      elim [
        | inl x ↦ from (inl (together (inl x)))
        | inr (inl y) ↦ from (inl (together (inr y)))
        | inr (inr later) ↦ from (inr later)
      ],
    )

-- What the merging loop makes of `previous` and the ranges after it.
record IsMerged (n : ℕ) (previous : ByteRange) (ranges result : List ByteRange) : Type 0 where
  within : All (Within n) result
  separated : Separated result
  starts : (range : ByteRange) → range.end + 1 < previous.start → Gap range result
  covered : (b : ℕ) → Covered b result ↔ Covered b (previous ∷ ranges)

merge_from-IsMerged :
    (n : ℕ) (previous : ByteRange) (ranges : List ByteRange)
    → n < u64_bound
    → Within n previous
    → All (Within n) ranges
    → Ascends (previous ∷ ranges)
    → IsMerged n previous ranges (merge_from previous ranges)
unfolding merge_from
merge_from-IsMerged n previous [] u w ws h = record {
  within = (w, tt);
  separated = (tt, tt);
  starts = λ range lt. lt;
  covered = λ b. (λ c. c, λ c. c);
}
merge_from-IsMerged n previous (range ∷ ranges) u w (v, ws) ((p, ps), (q, h)) =
    elim (Bool-cases (leb range.start (saturating_add_u64 previous.end 1))) [
      | inl near ↦
          let merged : ByteRange = record previous { end = max previous.end range.end } in
          let r = merge_from-IsMerged n merged ranges u (ground arith) ws (ps, h) in
          rw (near, merge_from)
            (record {
              within = r.within;
              separated = r.separated;
              starts = r.starts;
              covered =
                  λ b. merged_covered b previous range _ _ w.0 v.0 p (ground arith) (r.covered b);
            })
      | inr far ↦
          let r = merge_from-IsMerged n range ranges u v ws (q, h) in
          rw (far, merge_from)
            (record {
              within = (w, r.within);
              separated = (r.starts previous (ground arith), r.separated);
              starts = λ other lt. lt;
              covered = λ b. ground (arith, r.covered b);
            })
    ]

merge_lem :
    (n : ℕ) (ranges : List ByteRange)
    → n < u64_bound
    → All (Within n) ranges
    → Ascends ranges
    → All (Within n) (merge ranges)
      × Separated (merge ranges)
      × ((b : ℕ) → Covered b (merge ranges) ↔ Covered b ranges)
unfolding merge
merge_lem n [] u h a = (tt, tt, λ b. (λ c. c, λ c. c))
merge_lem n (range ∷ ranges) u (w, ws) a =
    let r = merge_from-IsMerged n range ranges u w ws a in (r.within, r.separated, r.covered)

-- Merging a list of ranges of a file whose length is a `u64`, in any order, gives ranges of the file that are in order
-- and apart from each other, and that hold exactly the bytes which the list holds.
pub merge-sort_ranges :
    (n : ℕ) (ranges : List ByteRange)
    → n < u64_bound
    → All (Within n) ranges
    → All (Within n) (merge (sort_ranges ranges))
      × Separated (merge (sort_ranges ranges))
      × ((b : ℕ) → Covered b (merge (sort_ranges ranges)) ↔ Covered b ranges)
merge-sort_ranges n ranges u h =
    let (within, separated, covered) =
      merge_lem n (sort_ranges ranges) u (sort_ranges-All (Within n) ranges h)
        (sort_ranges-Ascends ranges) in
    (within, separated, λ b. ground (arith, covered b, sort_ranges-Covered b ranges))
