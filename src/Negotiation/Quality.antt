-- ===== src/Negotiation/Quality.antt =====
-- The quality values that `parse_quality` reads.
use rustee_web_framework.Prelude.{
  ℕ, ◌+◌, ◌*◌, ◌-◌, ◌≤◌, ◌≡◌, refl, ◌↔◌, ◌⊎◌, inl, inr, ◌∙◌, ap, true, false, Option, none, some,
  [], ◌∷◌, ◌++◌, ◌==◌, all, length, arith, Option-cases, Bool-cases,
}
use rustee_web_framework.Text.{Text, eqb, eqb_iff, codes, byte_len, is_ascii_digit}
use rustee_web_framework.Text.Split.{nonempty, split_once, split_once_parts, split_once-append}
use rustee_web_framework.Text.Number.{parse_u16, parse_digits}
use rustee_web_framework.Negotiation.{scale, parse_fraction, parse_quality}

-- The thousandths that at most three digits after the dot stand for.
abbrev pub thousandths : Text → ℕ
thousandths [] = 0
thousandths (a ∷ []) = (a - b'0') * 100
thousandths (a ∷ b ∷ []) = (a - b'0') * 100 + (b - b'0') * 10
thousandths (a ∷ b ∷ c ∷ rest) = (a - b'0') * 100 + (b - b'0') * 10 + (c - b'0')

-- RFC 9110, 12.4.2: "0" or "1", with at most three digits after a dot, zeros behind a "1".
pub data Weight : Text → ℕ → Type 0 where
  nothing : Weight (codes "0") 0
  whole : Weight (codes "1") 1000
  fraction :
      (digits : Text)
      → all is_ascii_digit digits ≡ true
      → length digits ≤ 3
      → Weight (b'0' ∷ b'.' ∷ digits) (thousandths digits)
  zeros :
      (digits : Text)
      → all (λ c. c == b'0') digits ≡ true
      → length digits ≤ 3
      → Weight (b'1' ∷ b'.' ∷ digits) 1000

byte_len-digits : (s : Text) → all is_ascii_digit s ≡ true → byte_len s ≡ length s
unfolding byte_len
byte_len-digits [] h = refl
byte_len-digits (c ∷ s) h = ground (arith, byte_len-digits s)

digit_facts : (c : ℕ) → is_ascii_digit c ≡ true → ((c == b'+') ≡ false) × (c - b'0' ≤ 9)
digit_facts c h = ground arith

parse_digits-cons :
    (acc c : ℕ) (s : Text)
    → is_ascii_digit c ≡ true
    → acc ≤ 99
    → parse_digits 65536 acc (c ∷ s) ≡ parse_digits 65536 (acc * 10 + (c - b'0')) s
unfolding parse_digits
parse_digits-cons acc c s h k = ground (arith, digit_facts c)

parse_u16-digits :
    (c : ℕ) (s : Text) → is_ascii_digit c ≡ true → parse_u16 (c ∷ s) ≡ parse_digits 65536 0 (c ∷ s)
unfolding parse_u16
parse_u16-digits c s h = rw ((digit_facts c h).0)

parse_u16_one : (a : ℕ) → is_ascii_digit a ≡ true → parse_u16 (a ∷ []) ≡ some (a - b'0')
unfolding parse_digits
parse_u16_one a h =
    parse_u16-digits a [] h ∙ parse_digits-cons 0 a [] h (omega arith) ∙ ap some (omega arith)

parse_u16_two :
    (a b : ℕ)
    → is_ascii_digit a ≡ true
    → is_ascii_digit b ≡ true
    → parse_u16 (a ∷ b ∷ []) ≡ some ((a - b'0') * 10 + (b - b'0'))
unfolding parse_digits
parse_u16_two a b h k =
    parse_u16-digits a (b ∷ []) h
    ∙ parse_digits-cons 0 a (b ∷ []) h (omega arith)
    ∙ parse_digits-cons (0 * 10 + (a - b'0')) b [] k (omega (arith, digit_facts a h))
    ∙ ap some (omega arith)

parse_u16_three :
    (a b c : ℕ)
    → is_ascii_digit a ≡ true
    → is_ascii_digit b ≡ true
    → is_ascii_digit c ≡ true
    → parse_u16 (a ∷ b ∷ c ∷ []) ≡ some ((a - b'0') * 100 + (b - b'0') * 10 + (c - b'0'))
unfolding parse_digits
parse_u16_three a b c h k l =
    parse_u16-digits a (b ∷ c ∷ []) h
    ∙ parse_digits-cons 0 a (b ∷ c ∷ []) h (omega arith)
    ∙ parse_digits-cons (0 * 10 + (a - b'0')) b (c ∷ []) k (omega (arith, digit_facts a h))
    ∙ parse_digits-cons ((0 * 10 + (a - b'0')) * 10 + (b - b'0')) c [] l
        (omega (arith, digit_facts a h, digit_facts b k))
    ∙ ap some (omega arith)

-- A fraction behind a zero, once the guard on its digits has passed.
abbrev scaled : Text → Option ℕ
scaled digits = elim (parse_u16 digits) [
  | none ↦ none
  | some parsed ↦ scale (byte_len digits) parsed
]

scaled_lem :
    (digits : Text)
    → all is_ascii_digit digits ≡ true
    → length digits ≤ 3
    → nonempty digits ≡ true
    → scaled digits ≡ some (thousandths digits)
scaled_lem [] h l n = cc
scaled_lem (a ∷ []) h l n =
    rw (parse_u16_one a (ground arith), scaled) (rw (byte_len-digits (a ∷ []) h))
scaled_lem (a ∷ b ∷ []) h l n =
    rw (parse_u16_two a b (ground arith) (ground arith), scaled)
      (rw (byte_len-digits (a ∷ b ∷ []) h) (ap some (omega arith)))
scaled_lem (a ∷ b ∷ c ∷ []) h l n =
    rw (parse_u16_three a b c (ground arith) (ground arith) (ground arith), scaled)
      (rw (byte_len-digits (a ∷ b ∷ c ∷ []) h) (ap some (omega arith)))
scaled_lem (a ∷ b ∷ c ∷ d ∷ digits) h l n = absurd (omega arith)

-- What `parse_quality` makes of a value with a dot, its first part being "0" or "1".
parse_quality_cut :
    (w : ℕ) (digits : Text)
    → (w == b'.') ≡ false
    → nonempty digits ≡ true
    → parse_quality (w ∷ b'.' ∷ digits) ≡ parse_fraction (w ∷ []) digits
unfolding parse_quality
parse_quality_cut w [] h n = cc
parse_quality_cut w (d ∷ digits) h n =
    rw (split_once-append b'.' (w ∷ []) (d ∷ digits) (h, tt), parse_quality) (ground arith)

parse_fraction_guard :
    (w digits : Text) (q : ℕ)
    → parse_fraction w digits ≡ some q
    → (length digits ≤ 3)
      × (all is_ascii_digit digits ≡ true)
      × (((w ≡ codes "0") × (scaled digits ≡ some q))
          ⊎ ((w ≡ codes "1") × (all (λ c. c == b'0') digits ≡ true) × (q ≡ 1000)))
unfolding parse_fraction
parse_fraction_guard w digits q e =
    ground (arith, byte_len-digits digits, eqb_iff w (codes "0"), eqb_iff w (codes "1"))

fraction_sound :
    (w digits : Text) (q : ℕ) → parse_fraction w digits ≡ some q → Weight (w ++ b'.' ∷ digits) q
unfolding parse_u16
fraction_sound w [] q e = elim ((parse_fraction_guard w [] q e).2) [
  | inl (zero_first, value) ↦ cc
  | inr (one_first, all_zero, value) ↦ rw (one_first, value) (zeros [] refl (omega arith))
]
fraction_sound w (d ∷ digits) q e =
    let (short, digit, form) = parse_fraction_guard w (d ∷ digits) q e in
    elim form [
      | inl (zero_first, value) ↦
          let same : q ≡ thousandths (d ∷ digits) = cc (scaled_lem (d ∷ digits) digit short refl) in
          rw (zero_first, same) (fraction (d ∷ digits) digit short)
      | inr (one_first, all_zero, value) ↦ rw (one_first, value) (zeros (d ∷ digits) all_zero short)
    ]

parse_quality_sound : (v : Text) (q : ℕ) → parse_quality v ≡ some q → Weight v q
unfolding parse_quality
parse_quality_sound v q e = elim (Bool-cases (eqb v (codes "0"))) [
  | inl a ↦ let value : q ≡ 0 = ground arith in rw ((eqb_iff v (codes "0")).0 a, value) nothing
  | inr a ↦ elim (Bool-cases (eqb v (codes "0."))) [
    | inl b ↦
        let value : q ≡ 0 = ground arith in
        rw ((eqb_iff v (codes "0.")).0 b, value) (fraction [] refl (omega arith))
    | inr b ↦ elim (Bool-cases (eqb v (codes "1"))) [
      | inl c ↦ let value : q ≡ 1000 = ground arith in rw ((eqb_iff v (codes "1")).0 c, value) whole
      | inr c ↦ elim (Bool-cases (eqb v (codes "1."))) [
        | inl d ↦
            let value : q ≡ 1000 = ground arith in
            rw ((eqb_iff v (codes "1.")).0 d, value) (zeros [] refl (omega arith))
        | inr d ↦ elim (Option-cases (split_once b'.' v)) [
          | inl uncut ↦ cc (rw (uncut, parse_quality) at (rw (a, b, c, d) at e))
          | inr ((w, digits), cut) ↦
              rw (split_once_parts b'.' v w digits cut).1
                (fraction_sound w digits q (rw (cut, parse_quality) at (rw (a, b, c, d) at e)))
        ]
      ]
    ]
  ]
]

digits_of_zeros :
    (digits : Text) → all (λ c. c == b'0') digits ≡ true → all is_ascii_digit digits ≡ true
digits_of_zeros [] h = refl
digits_of_zeros (c ∷ digits) h = ground (arith, digits_of_zeros digits)

fraction_zero :
    (digits : Text)
    → all is_ascii_digit digits ≡ true
    → length digits ≤ 3
    → nonempty digits ≡ true
    → parse_fraction (codes "0") digits ≡ some (thousandths digits)
unfolding parse_fraction
fraction_zero digits h l n = ground (arith, byte_len-digits digits, scaled_lem digits)

fraction_one :
    (digits : Text)
    → all (λ c. c == b'0') digits ≡ true
    → length digits ≤ 3
    → parse_fraction (codes "1") digits ≡ some 1000
unfolding parse_fraction
fraction_one digits h l = ground (arith, digits_of_zeros digits, byte_len-digits digits)

parse_quality_complete : (v : Text) (q : ℕ) → Weight v q → parse_quality v ≡ some q
unfolding parse_quality
parse_quality_complete v q nothing = refl
parse_quality_complete v q whole = refl
parse_quality_complete v q (fraction [] h l) = refl
parse_quality_complete v q (fraction (d ∷ digits) h l) =
    parse_quality_cut b'0' (d ∷ digits) refl refl ∙ fraction_zero (d ∷ digits) h l refl
parse_quality_complete v q (zeros [] h l) = refl
parse_quality_complete v q (zeros (d ∷ digits) h l) =
    parse_quality_cut b'1' (d ∷ digits) refl refl ∙ fraction_one (d ∷ digits) h l

-- `parse_quality` reads exactly the weights of RFC 9110, each as its thousandths.
pub parse_quality_iff : (v : Text) (q : ℕ) → (parse_quality v ≡ some q) ↔ Weight v q
parse_quality_iff v q = (parse_quality_sound v q, parse_quality_complete v q)

thousandths_le : (digits : Text) → all is_ascii_digit digits ≡ true → thousandths digits ≤ 999
thousandths_le [] h = omega arith
thousandths_le (a ∷ []) h = ground arith
thousandths_le (a ∷ b ∷ []) h =
    omega (arith, digit_facts a (ground arith), digit_facts b (ground arith))
thousandths_le (a ∷ b ∷ c ∷ rest) h = omega (
  arith,
  digit_facts a (ground arith),
  digit_facts b (ground arith),
  digit_facts c (ground arith),
)

Weight-le : (v : Text) (q : ℕ) → Weight v q → q ≤ 1000
Weight-le v q nothing = omega arith
Weight-le v q whole = omega arith
Weight-le v q (fraction digits h l) = omega (arith, thousandths_le digits h)
Weight-le v q (zeros digits h l) = omega arith

pub parse_quality_le : (v : Text) (q : ℕ) → parse_quality v ≡ some q → q ≤ 1000
parse_quality_le v q e = Weight-le v q (parse_quality_sound v q e)
