-- ===== src/Text/Number.antt =====
-- Decimal numbers: `str::parse` for unsigned integers, and how `format!` prints them.
use rustee_web_framework.Prelude.{
  ℕ, zero, suc, ◌+◌, ◌-◌, ◌*◌, ◌/◌, ◌%◌, ◌<◌, ◌≡◌, Option, none, some, [], ◌∷◌, ◌++◌, arith, ltb,
  ◌==◌, if◌then◌else◌, is_empty,
}
use rustee_web_framework.Text.{Text, is_ascii_digit}

-- The digits, with the check for overflow at each of them.
unfoldable pub parse_digits : ℕ → ℕ → Text → Option ℕ
parse_digits bound acc [] = some acc
parse_digits bound acc (c ∷ s) =
    let value = acc * 10 + (c - b'0') in
    let rest = parse_digits bound value s in
    if is_ascii_digit c then (if ltb value bound then rest else none) else none

-- `str::parse` at a type of the values below `bound`. A plus sign may stand in front.
unfoldable pub parse_unsigned : ℕ → Text → Option ℕ
unfolding parse_digits
parse_unsigned bound [] = none
parse_unsigned bound (c ∷ s) =
    if c == b'+'
    then (if is_empty s then none else parse_digits bound 0 s)
    else parse_digits bound 0 (c ∷ s)

abbrev pub u64_bound : ℕ
u64_bound = 18446744073709551616

abbrev pub u16_bound : ℕ
u16_bound = 65536

unfoldable pub parse_u64 : Text → Option ℕ
unfolding parse_unsigned
parse_u64 s = parse_unsigned u64_bound s

unfoldable pub parse_u16 : Text → Option ℕ
unfolding parse_unsigned
parse_u16 s = parse_unsigned u16_bound s

parse_digits_lt :
    (bound acc n : ℕ) (s : Text) → acc < bound → parse_digits bound acc s ≡ some n → n < bound
unfolding parse_digits
parse_digits_lt bound acc n [] h e = ground arith
parse_digits_lt bound acc n (c ∷ s) h e =
    ground (arith, parse_digits_lt bound (acc * 10 + (c - b'0')) n s)

pub parse_u64_lt : (n : ℕ) (s : Text) → parse_u64 s ≡ some n → n < u64_bound
unfolding parse_u64
parse_u64_lt n [] e = cc
parse_u64_lt n (c ∷ s) e =
    ground (arith, parse_digits_lt u64_bound 0 n s, parse_digits_lt u64_bound 0 n (c ∷ s))

-- The decimal digits of a number; a fuel of its value suffices, since each round divides by ten.
unfoldable pub decimal_from : ℕ → ℕ → Text
decimal_from zero n = (b'0' + n % 10) ∷ []
decimal_from (suc fuel) n =
    let front = decimal_from fuel (n / 10) in
    if ltb n 10 then (b'0' + n) ∷ [] else front ++ (b'0' + n % 10) ∷ []

unfoldable pub decimal : ℕ → Text
unfolding decimal_from
decimal n = decimal_from n n
