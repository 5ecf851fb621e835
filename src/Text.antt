-- ===== src/Text.antt =====
-- Rust's `str`, as the list of its code points: the operations of the standard library that the
-- modelled code calls.
pub mod Split
pub mod Trim
pub mod Ordered
pub mod Number
use Prim.Native.Char.{code}
use Prim.Native.String.{String}
use rustee_web_framework.Prelude.{
  ℕ, zero, suc, ◌+◌, ◌-◌, ◌≡◌, refl, ◌↔◌, Bool, true, false, not, ◌&&◌, ◌||◌, Option, none, some,
  List, [], ◌∷◌, ◌++◌, arith, ltb, leb, ◌==◌, if◌then◌else◌, length, any, all, is_empty,
}

abbrev pub Text : Type 0
Text = List ℕ

-- `==` on texts.
abbrev pub eqb : Text → Text → Bool
eqb [] [] = true
eqb [] (b ∷ t) = false
eqb (a ∷ s) [] = false
eqb (a ∷ s) (b ∷ t) = a == b && eqb s t

pub eqb_iff : (s t : Text) → (eqb s t ≡ true) ↔ (s ≡ t)
eqb_iff [] [] = (λ _. refl, λ _. refl)
eqb_iff [] (b ∷ t) = (λ h. cc, λ h. cc)
eqb_iff (a ∷ s) [] = (λ h. cc, λ h. cc)
eqb_iff (a ∷ s) (b ∷ t) = ground (arith, eqb_iff s t)

pub eqb_refl : (s : Text) → eqb s s ≡ true
eqb_refl s = (eqb_iff s s).1 refl

-- `str::strip_prefix`.
unfoldable pub strip_prefix : Text → Text → Option Text
strip_prefix [] s = some s
strip_prefix (a ∷ p) [] = none
strip_prefix (a ∷ p) (b ∷ s) = let rest = strip_prefix p s in if a == b then rest else none

-- `str::starts_with`.
unfoldable pub starts_with : Text → Text → Bool
starts_with [] s = true
starts_with (a ∷ p) [] = false
starts_with (a ∷ p) (b ∷ s) = a == b && starts_with p s

-- `str::contains` with a text.
unfoldable pub contains : Text → Text → Bool
unfolding starts_with
contains needle [] = starts_with needle []
contains needle (c ∷ s) = starts_with needle (c ∷ s) || contains needle s

-- `str::contains` with a character.
abbrev pub has_char : ℕ → Text → Bool
has_char c s = any (λ d. d == c) s

pub strip_prefix_iff : (p s r : Text) → (strip_prefix p s ≡ some r) ↔ (s ≡ p ++ r)
unfolding strip_prefix
strip_prefix_iff [] s r = (λ h. cc, λ h. cc)
strip_prefix_iff (a ∷ p) [] r = (λ h. cc, λ h. cc)
strip_prefix_iff (a ∷ p) (b ∷ s) r = ground (arith, strip_prefix_iff p s r)

-- `char::is_ascii_digit`, `is_ascii_alphabetic`, `is_ascii_alphanumeric`, `is_ascii_control`.
abbrev pub is_ascii_digit : ℕ → Bool
is_ascii_digit c = leb b'0' c && leb c b'9'

abbrev pub is_ascii_alphanumeric : ℕ → Bool
is_ascii_alphanumeric c = is_ascii_digit c || leb b'a' c && leb c b'z' || leb b'A' c && leb c b'Z'

abbrev pub is_ascii_control : ℕ → Bool
is_ascii_control c = ltb c 32 || c == 127

-- `char::is_control`: the general category Cc.
abbrev pub is_control : ℕ → Bool
is_control c = ltb c 32 || leb 127 c && leb c 159

-- `u8::to_ascii_lowercase`, and its use in `eq_ignore_ascii_case`.
abbrev pub to_ascii_lowercase : ℕ → ℕ
to_ascii_lowercase c = if leb b'A' c && leb c b'Z' then c + 32 else c

unfoldable pub lowercase : Text → Text
lowercase [] = []
lowercase (c ∷ s) = to_ascii_lowercase c ∷ lowercase s

unfoldable pub eq_ignore_ascii_case : Text → Text → Bool
unfolding lowercase
eq_ignore_ascii_case s t = eqb (lowercase s) (lowercase t)

-- The bytes of one code point in UTF-8, and `str::len`.
abbrev pub utf8_len : ℕ → ℕ
utf8_len c = if ltb c 128 then 1 else if ltb c 2048 then 2 else if ltb c 65536 then 3 else 4

unfoldable pub byte_len : Text → ℕ
byte_len [] = 0
byte_len (c ∷ s) = utf8_len c + byte_len s

-- The code points of a literal.
abbrev pub codes : String → Text
codes String.[] = []
codes (String.◌∷◌ c s) = code c ∷ codes s

-- `str::ends_with`.
unfoldable pub ends_with : Text → Text → Bool
ends_with suffix [] = eqb suffix []
ends_with suffix (c ∷ s) = eqb suffix (c ∷ s) || ends_with suffix s
