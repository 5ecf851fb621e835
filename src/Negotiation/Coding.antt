-- ===== src/Negotiation/Coding.antt =====
-- crates/rustee-middleware/src/compression/negotiation.rs: `select_coding`, with this file's own parser
-- of `Accept-Encoding`.
use rustee_web_framework.Prelude.{
  ℕ, ◌*◌, max, Bool, true, false, not, ◌&&◌, ◌||◌, Option, none, some, List, [], ◌∷◌, leb, ltb,
  ◌==◌, if◌then◌else◌, all,
}
use rustee_web_framework.Text.{Text, eqb, codes, byte_len, is_ascii_digit, eq_ignore_ascii_case}
use rustee_web_framework.Text.Trim.{trim}
use rustee_web_framework.Text.Split.{split, split_first, split_once}
use rustee_web_framework.Text.Number.{parse_u16}
use rustee_web_framework.Negotiation.{Values, positive, or}

-- The thousandths of a number of one, two or three digits.
abbrev pub scale : ℕ → ℕ → Option ℕ
scale digits parsed =
    if digits == 1
    then some (parsed * 100)
    else if digits == 2
    then some (parsed * 10)
    else if digits == 3
    then some (parsed * 1)
    else none

-- The part of `parse_quality` after the dot.
unfoldable pub parse_fraction : Text → Text → Option ℕ
parse_fraction whole fraction =
    if ltb 3 (byte_len fraction) || not (all is_ascii_digit fraction)
    then none
    else if eqb whole (codes "0")
    then elim (parse_u16 fraction) [ none ↦ none | some parsed ↦ scale (byte_len fraction) parsed ]
    else if eqb whole (codes "1") && all (λ c. c == b'0') fraction
    then some 1000
    else none

unfoldable pub parse_quality : Text → Option ℕ
unfolding parse_fraction
parse_quality value =
    if eqb value (codes "0") || eqb value (codes "0.")
    then some 0
    else if eqb value (codes "1") || eqb value (codes "1.")
    then some 1000
    else elim (split_once b'.' value) [
      | none ↦ none
      | some (whole, fraction) ↦ parse_fraction whole fraction
    ]

-- The value of the first parameter `q`.
unfoldable pub find_q : List Text → Option Text
find_q [] = none
find_q (parameter ∷ parameters) =
    let rest = find_q parameters in
    elim (split_once b'=' (trim parameter)) [
      | none ↦ rest
      | some (name, value) ↦
          if eq_ignore_ascii_case (trim name) (codes "q") then some (trim value) else rest
    ]

-- The token and the quality of one item of a value.
unfoldable pub item_token : Text → Text
item_token item = trim (split_first b';' item).0

unfoldable pub item_quality : Text → ℕ
unfolding find_q parse_quality
item_quality item = elim (find_q (split_first b';' item).1) [
  | none ↦ 1000
  | some value ↦ elim (parse_quality value) [ none ↦ 0 | some quality ↦ quality ]
]

abbrev pub raise : Option ℕ → ℕ → Option ℕ
raise none quality = some quality
raise (some old) quality = some (max old quality)

-- The variables of the loops of `quality_for`.
pub record Scan : Type 0 where
  pub explicit : Option ℕ
  pub wildcard : Option ℕ
  pub found : Bool

abbrev pub scan_item : Text → Text → Scan → Scan
scan_item token item scan =
    if eq_ignore_ascii_case (item_token item) token
    then record scan { explicit = raise scan.explicit (item_quality item) }
    else if eqb (item_token item) (codes "*")
    then record scan { wildcard = raise scan.wildcard (item_quality item) }
    else scan

unfoldable pub scan_items : Text → List Text → Scan → Scan
scan_items token [] scan = scan
scan_items token (item ∷ items) scan = scan_items token items (scan_item token item scan)

unfoldable pub scan_values : Text → Values → Scan → Scan
unfolding scan_items
scan_values token [] scan = scan
scan_values token (none ∷ values) scan = scan_values token values scan
scan_values token (some value ∷ values) scan =
    scan_values token values (scan_items token (split b',' value) (record scan { found = true }))

abbrev pub start : Scan
start = record { explicit = none; wildcard = none; found = false }

pub data ContentCoding : Type 0 where
  brotli gzip : ContentCoding

abbrev pub coding_token : ContentCoding → Text
coding_token ContentCoding.brotli = codes "br"
coding_token ContentCoding.gzip = codes "gzip"

unfoldable pub quality_for : Values → ContentCoding → Option ℕ
quality_for values coding =
    let scan = scan_values (coding_token coding) values start in
    if not scan.found then none else positive (or scan.explicit scan.wildcard)

abbrev choose : Option ℕ → Option ℕ → Option ContentCoding
choose (some b) (some g) = if leb g b then some ContentCoding.brotli else some ContentCoding.gzip
choose none (some g) = some ContentCoding.gzip
choose (some b) none = some ContentCoding.brotli
choose none none = none

unfoldable pub select_coding : Bool → Bool → Values → Option ContentCoding
select_coding brotli_enabled gzip_enabled values =
    choose (if brotli_enabled then quality_for values ContentCoding.brotli else none)
      (if gzip_enabled then quality_for values ContentCoding.gzip else none)
