-- ===== src/Static/Range/Bounds.antt =====
-- crates/rustee-static/src/range.rs: one member of a range set, and the bytes that it selects.
use rustee_web_framework.Prelude.{
  ℕ, suc, ◌+◌, ◌≤◌, ◌<◌, ◌≡◌, ◌↔◌, inl, inr, false, Option, none, some, List, [], ◌∷◌, ◌++◌, leb,
  is_empty, arith, All, All-append, subst, Bool-cases, Option-cases, ap, ◌∙◌,
}
use rustee_web_framework.Prelude.Result.{ok, Result-cases}
use rustee_web_framework.Text.{Text}
use rustee_web_framework.Text.Trim.{trim}
use rustee_web_framework.Text.Split.{split_once}
use rustee_web_framework.Text.Number.{parse_u64}
use rustee_web_framework.Static.Range.{
  ByteRange, parse_range_member, collect_ranges, max_range_members,
}

-- The range is not empty and lies within a file of `n` bytes.
abbrev pub Within : ℕ → ByteRange → Type 0
Within n range = (range.start ≤ range.end) × (range.end < n)

abbrev pub Holds : ℕ → ByteRange → Type 0
Holds b range = (range.start ≤ b) × (b ≤ range.end)

pub parse_range_member-Within :
    (specifier : Text) (n : ℕ) (range : ByteRange)
    → parse_range_member specifier n ≡ ok (some range)
    → Within n range
unfolding parse_range_member
parse_range_member-Within specifier n range e = ground arith

-- The three forms of a member: from one position to another, from a position to the end, and the
-- last bytes.
pub data Member : Type 0 where
  span : ℕ → ℕ → Member
  tail : ℕ → Member
  suffix : ℕ → Member

-- A text spells a member: it is split at its first dash, and the parts are numbers or empty.
abbrev pub Spells : Text → Member → Type 0
Spells s (span a z) =
    (first : Text) × (last : Text) × (split_once b'-' s ≡ some (first, last))
    × (is_empty first ≡ false)
    × (is_empty last ≡ false)
    × (parse_u64 first ≡ some a)
    × (parse_u64 last ≡ some z)
Spells s (tail a) =
    (first : Text) × (split_once b'-' s ≡ some (first, []))
    × (is_empty first ≡ false)
    × (parse_u64 first ≡ some a)
Spells s (suffix k) =
    (last : Text) × (split_once b'-' s ≡ some ([], last)) × (parse_u64 last ≡ some k)

-- The byte at position `b` of a file of `n` bytes is one that the member asks for.
abbrev pub Asks : Member → ℕ → ℕ → Type 0
Asks (span a z) n b = (a ≤ b) × (b ≤ z) × (b < n)
Asks (tail a) n b = (a ≤ b) × (b < n)
Asks (suffix k) n b = (b < n) × (n ≤ b + k)

abbrev pub Selected : Option ByteRange → ℕ → Type 0
Selected none b = ⊥
Selected (some range) b = Holds b range

-- A member that is accepted selects exactly the bytes that its text asks for and the file has.
parse_range_member-Asks :
    (s : Text) (member : Member) (n : ℕ) (o : Option ByteRange) (b : ℕ)
    → Spells s member
    → parse_range_member s n ≡ ok o
    → Selected o b ↔ Asks member n b
unfolding parse_range_member
parse_range_member-Asks s (span a z) n none b (first, last, cut, f, l, pa, pz) e = ground arith
parse_range_member-Asks s (span a z) n (some range) b (first, last, cut, f, l, pa, pz) e =
    ground arith
parse_range_member-Asks s (tail a) n none b (first, cut, f, pa) e = ground arith
parse_range_member-Asks s (tail a) n (some range) b (first, cut, f, pa) e = ground arith
parse_range_member-Asks s (suffix k) n none b (last, cut, pk) e = ground arith
parse_range_member-Asks s (suffix k) n (some range) b (last, cut, pk) e = ground arith

-- The ranges of a set that is accepted lie within the file.
pub collect_ranges-Within :
    (index : ℕ) (specifiers : List Text) (n : ℕ) (ranges result : List ByteRange)
    → All (Within n) ranges
    → collect_ranges index specifiers n ranges ≡ some result
    → All (Within n) result
unfolding collect_ranges
collect_ranges-Within index [] n ranges result h e = subst (All (Within n)) (cc) h
collect_ranges-Within index (specifier ∷ rest) n ranges result h e =
    elim (Bool-cases (leb max_range_members index)) [
      | inl past ↦ cc (rw past at e)
      | inr room ↦ elim (Result-cases (parse_range_member (trim specifier) n)) [
        | inr (bad, failed) ↦ cc (rw (failed, collect_ranges) at (rw room at e))
        | inl (o, parsed) ↦ elim (Option-cases o) [
          | inl empty ↦
              collect_ranges-Within (suc index) rest n ranges result h
                (rw (parsed ∙ ap ok empty, collect_ranges) at (rw room at e))
          | inr (range, found) ↦
              collect_ranges-Within (suc index) rest n (ranges ++ range ∷ []) result
                (All-append _ ranges (range ∷ []) h
                  (parse_range_member-Within (trim specifier) n range (parsed ∙ ap ok found), tt))
                (rw (parsed ∙ ap ok found, collect_ranges) at (rw room at e))
        ]
      ]
    ]
