-- ===== src/Negotiation/Choice.antt =====
-- The codings that the two negotiations choose.
use rustee_web_framework.Prelude.{
  any-append, ◌↔◌, sym, ap, ◌∙◌, not, ℕ, ◌≤◌, ◌<◌, ◌≡◌, refl, inl, inr, Bool, true, false, ◌||◌,
  Option, none, some, List, [], ◌∷◌, ◌++◌, if◌then◌else◌, any, arith, Option-cases, Bool-cases, map,
  subst, All,
}
use rustee_web_framework.Text.{Text, eqb, codes, eq_ignore_ascii_case}
use rustee_web_framework.Text.Split.{split, split_first}
use rustee_web_framework.Negotiation.Coding
use rustee_web_framework.Negotiation.{
  parse_fraction, Values, item_token, item_quality, find_q, parse_quality, raise, Scan, scan_item,
  scan_items, scan_values, start, positive, or, PrecompressedEncoding, encoding_token,
  encoding_quality, preferred_precompressed_encodings,
}
use rustee_web_framework.Negotiation.Highest.{items_of, names}
use rustee_web_framework.Negotiation.Accepted.{Accepts, encoding_quality_iff}
use rustee_web_framework.Negotiation.Quality.{parse_quality_le}

abbrev pub to_coding : PrecompressedEncoding → Coding.ContentCoding
to_coding PrecompressedEncoding.brotli = Coding.ContentCoding.brotli
to_coding PrecompressedEncoding.gzip = Coding.ContentCoding.gzip

abbrev pub first {ℓ} : {A : Type ℓ} → List A → Option A
first [] = none
first (x ∷ xs) = some x

-- The two parsers agree on each part of a header.
same_find_q : (parameters : List Text) → Coding.find_q parameters ≡ find_q parameters
unfolding Coding.find_q find_q
same_find_q [] = refl
same_find_q (parameter ∷ parameters) = ground (arith, same_find_q parameters)

same_parse_quality : (value : Text) → Coding.parse_quality value ≡ parse_quality value
unfolding Coding.parse_quality Coding.parse_fraction parse_quality parse_fraction
same_parse_quality value = refl

same_item_quality : (item : Text) → Coding.item_quality item ≡ item_quality item
unfolding Coding.item_quality item_quality Coding.parse_quality Coding.parse_fraction parse_quality
    parse_fraction
same_item_quality item =
    ap
      (λ given. elim given [
        | none ↦ 1000
        | some value ↦ elim (parse_quality value) [ none ↦ 0 | some quality ↦ quality ]
      ])
      (same_find_q (split_first b';' item).1)

same_item_token : (item : Text) → Coding.item_token item ≡ item_token item
unfolding Coding.item_token item_token
same_item_token item = refl

-- The variables of the one loop, as those of the other.
abbrev as_scan : Coding.Scan → Scan
as_scan scan = record { explicit = scan.explicit; wildcard = scan.wildcard; found = scan.found }

same_raise : (o : Option ℕ) (quality : ℕ) → Coding.raise o quality ≡ raise o quality
same_raise none quality = refl
same_raise (some old) quality = refl

same_scan_item :
    (token item : Text) (scan : Coding.Scan)
    → as_scan (Coding.scan_item token item scan) ≡ scan_item token item (as_scan scan)
same_scan_item token item scan =
    let same = same_item_token item in
    let quality = same_item_quality item in
    elim (Bool-cases (eq_ignore_ascii_case (item_token item) token)) [
      | inl named ↦ rw (same, quality, named, same_raise scan.explicit (item_quality item)) refl
      | inr other ↦ elim (Bool-cases (eqb (item_token item) (codes "*"))) [
        | inl star ↦
            rw (same, quality, other, star, same_raise scan.wildcard (item_quality item)) refl
        | inr neither ↦ rw (same, other, neither) refl
      ]
    ]

same_scan_items :
    (token : Text) (items : List Text) (scan : Coding.Scan)
    → as_scan (Coding.scan_items token items scan) ≡ scan_items token items (as_scan scan)
unfolding Coding.scan_items scan_items
same_scan_items token [] scan = refl
same_scan_items token (item ∷ items) scan =
    same_scan_items token items (Coding.scan_item token item scan)
    ∙ ap (scan_items token items) (same_scan_item token item scan)

same_scan_values :
    (token : Text) (values : Values) (scan : Coding.Scan)
    → as_scan (Coding.scan_values token values scan) ≡ scan_values token values (as_scan scan)
unfolding Coding.scan_values scan_values
same_scan_values token [] scan = refl
same_scan_values token (none ∷ values) scan = same_scan_values token values scan
same_scan_values token (some value ∷ values) scan =
    same_scan_values token values
      (Coding.scan_items token (split b',' value) (record scan { found = true }))
    ∙ ap (scan_values token values)
        (same_scan_items token (split b',' value) (record scan { found = true }))

same_outcome :
    (values : Values) (token : Text)
    → (let scan = Coding.scan_values token values Coding.start in
        if not scan.found then none else positive (or scan.explicit scan.wildcard))
      ≡ (let scan = scan_values token values start in
          if scan.found then positive (or scan.explicit scan.wildcard) else none)
same_outcome values token =
    let same = same_scan_values token values Coding.start in
    let explicit = ap (λ scan. scan.explicit) same in
    let wildcard = ap (λ scan. scan.wildcard) same in
    let found = ap (λ scan. scan.found) same in
    elim (Bool-cases (scan_values token values start).found) [
      | inl read ↦ rw (found, explicit, wildcard, read) refl
      | inr unread ↦ rw (found, unread) refl
    ]

same_quality :
    (values : Values) (e : PrecompressedEncoding)
    → encoding_quality values e ≡ Coding.quality_for values (to_coding e)
unfolding encoding_quality Coding.quality_for
same_quality values PrecompressedEncoding.brotli = sym (same_outcome values (codes "br"))
same_quality values PrecompressedEncoding.gzip = sym (same_outcome values (codes "gzip"))

-- With both codings enabled, the coding that the compression layer applies is the first one that
-- the static files handler would look for. And the handler gives an encoding a quality exactly where
-- that quality is not zero and is the highest of the items of all readable values that name the
-- encoding, or, where none does, the highest of the items that are "*".
pub select_coding-first :
    (values : Values) (e : PrecompressedEncoding) (quality : ℕ)
    → (Coding.select_coding true true values
        ≡ first (map to_coding (preferred_precompressed_encodings values)))
      × ((encoding_quality values e ≡ some quality)
          ↔ Accepts (encoding_token e) (items_of values) quality)
unfolding Coding.select_coding preferred_precompressed_encodings
select_coding-first values e quality = (
  ground (
    arith,
    same_quality values PrecompressedEncoding.brotli,
    same_quality values PrecompressedEncoding.gzip,
  ),
  encoding_quality_iff values e quality,
)

quality_le :
    (o : Option Text)
    → (elim o [
      | none ↦ 1000
      | some value ↦ elim (parse_quality value) [ none ↦ 0 | some quality ↦ quality ]
    ])
      ≤ 1000
quality_le none = omega arith
quality_le (some value) = elim (Option-cases (parse_quality value)) [
  | inl e ↦ rw e (omega arith)
  | inr (q, e) ↦ rw e (parse_quality_le value q e)
]

item_quality_le : (item : Text) → item_quality item ≤ 1000
unfolding item_quality
item_quality_le item = ground (arith, quality_le (find_q (split_first b';' item).1))

abbrev AtMost : Option ℕ → Type 0
AtMost none = Unit
AtMost (some q) = q ≤ 1000

abbrev IsBounded : Scan → Type 0
IsBounded scan = AtMost scan.explicit × AtMost scan.wildcard

scan_items-IsBounded :
    (token : Text) (items : List Text) (scan : Scan)
    → IsBounded scan
    → IsBounded (scan_items token items scan)
unfolding scan_items
scan_items-IsBounded token [] scan h = h
scan_items-IsBounded token (item ∷ items) scan h =
    scan_items-IsBounded token items _ (ground (arith, item_quality_le item))

scan_values-IsBounded :
    (token : Text) (values : Values) (scan : Scan)
    → IsBounded scan
    → IsBounded (scan_values token values scan)
unfolding scan_values
scan_values-IsBounded token [] scan h = h
scan_values-IsBounded token (none ∷ values) scan h = scan_values-IsBounded token values scan h
scan_values-IsBounded token (some value ∷ values) scan h =
    scan_values-IsBounded token values _
      (scan_items-IsBounded token (split b',' value) (record scan { found = true }) h)

abbrev pub Refused : Text → Text → Type 0
Refused token item = names token item ≡ true → item_quality item ≡ 0

-- The explicit quality of a scan is absent or zero, and not absent where the flag is set.
abbrev IsZero : Bool → Option ℕ → Type 0
IsZero named none = named ≡ false
IsZero named (some q) = q ≡ 0

or_assoc : (a b c : Bool) → (a || (b || c)) ≡ (a || b || c)
or_assoc true b c = refl
or_assoc false b c = refl

or-false : (a : Bool) → (a || false) ≡ a
or-false true = refl
or-false false = refl

or-true : (a : Bool) → (a || true) ≡ true
or-true true = refl
or-true false = refl

raise-IsZero :
    (named : Bool) (o : Option ℕ) (q : ℕ) → IsZero named o → q ≡ 0 → IsZero true (raise o q)
raise-IsZero named none q z e = e
raise-IsZero named (some old) q z e = omega arith

positive_zero : (x w : Option ℕ) → IsZero true x → positive (or x w) ≡ none
positive_zero none w z = cc
positive_zero (some q) w z = rw z

positive_bounds :
    (x w : Option ℕ) (q : ℕ)
    → AtMost x
    → AtMost w
    → positive (or x w) ≡ some q
    → (0 < q) × (q ≤ 1000)
positive_bounds none none q h k e = cc
positive_bounds none (some b) q h k e = ground arith
positive_bounds (some a) w q h k e = ground arith

scan_item-IsZero :
    (token item : Text) (scan : Scan) (named : Bool)
    → IsZero named scan.explicit
    → Refused token item
    → IsZero (named || names token item) (scan_item token item scan).explicit
scan_item-IsZero token item scan named z r = elim (Bool-cases (names token item)) [
  | inl same ↦
      rw (same, or-true named) (raise-IsZero named scan.explicit (item_quality item) z (r same))
  | inr other ↦ elim (Bool-cases (eqb (item_token item) (codes "*"))) [
    | inl star ↦ rw (other, star, or-false named) z
    | inr token' ↦ rw (other, token', or-false named) z
  ]
]

scan_items-IsZero :
    (token : Text) (items : List Text) (scan : Scan) (named : Bool)
    → IsZero named scan.explicit
    → All (Refused token) items
    → IsZero (named || any (names token) items) (scan_items token items scan).explicit
unfolding scan_items
scan_items-IsZero token [] scan named z h = rw (or-false named) z
scan_items-IsZero token (item ∷ items) scan named z (r, h) =
    rw (or_assoc named (names token item) (any (names token) items)) (
      scan_items-IsZero token items (scan_item token item scan) (named || names token item)
        (scan_item-IsZero token item scan named z r) h)

All-split : (P : Text → Type 0) (xs ys : List Text) → All P (xs ++ ys) → All P xs × All P ys
All-split P [] ys h = (tt, h)
All-split P (x ∷ xs) ys (p, h) = let (a, b) = All-split P xs ys h in ((p, a), b)

scan_values-IsZero :
    (token : Text) (values : Values) (scan : Scan) (named : Bool)
    → IsZero named scan.explicit
    → All (Refused token) (items_of values)
    → IsZero (named || any (names token) (items_of values)) (scan_values token values scan).explicit
unfolding scan_values
scan_values-IsZero token [] scan named z h = rw (or-false named) z
scan_values-IsZero token (none ∷ values) scan named z h =
    scan_values-IsZero token values scan named z h
scan_values-IsZero token (some value ∷ values) scan named z h =
    let items = split b',' value in
    let (here, later) = All-split (Refused token) items (items_of values) h in
    rw
      (
        any-append (names token) items (items_of values),
        or_assoc named (any (names token) items) (any (names token) (items_of values)),
      )
      (scan_values-IsZero token values (scan_items token items (record scan { found = true }))
        (named || any (names token) items)
        (scan_items-IsZero token items (record scan { found = true }) named z here) later)

-- An encoding that the request names, each time with the quality zero, is not acceptable, whatever
-- quality the wildcard has.
encoding_quality-Refused :
    (values : Values) (e : PrecompressedEncoding)
    → any (names (encoding_token e)) (items_of values) ≡ true
    → All (Refused (encoding_token e)) (items_of values)
    → encoding_quality values e ≡ none
unfolding encoding_quality
encoding_quality-Refused values e named h =
    let scan : Scan = scan_values (encoding_token e) values start in
    let z : IsZero (any (names (encoding_token e)) (items_of values)) scan.explicit =
      scan_values-IsZero (encoding_token e) values start false refl h in
    let closed : positive (or scan.explicit scan.wildcard) ≡ none =
      positive_zero scan.explicit scan.wildcard (subst (λ b. IsZero b scan.explicit) named z) in
    ground (arith, closed)

found_positive :
    (scan : Scan) (q : ℕ)
    → (if scan.found then positive (or scan.explicit scan.wildcard) else none) ≡ some q
    → positive (or scan.explicit scan.wildcard) ≡ some q
found_positive scan q e = elim (Bool-cases scan.found) [
  | inl found ↦ rw found at e
  | inr absent ↦ cc (rw absent at e)
]

-- An acceptable encoding has a quality of at least one thousandth and at most one.
pub encoding_quality_bounds :
    (values : Values) (e : PrecompressedEncoding) (q : ℕ)
    → encoding_quality values e ≡ some q
    → (0 < q) × (q ≤ 1000)
unfolding encoding_quality
encoding_quality_bounds values e q h =
    let scan : Scan = scan_values (encoding_token e) values start in
    let (x, w) = scan_values-IsBounded (encoding_token e) values start (tt, tt) in
    positive_bounds scan.explicit scan.wildcard q x w (found_positive scan q h)
