-- ===== src/Oidc/Values/Grammar.antt =====
-- The grammars of the values that crates/rustee-core/src/oauth.rs lets in, written out by characters.
use rustee_web_framework.Prelude.{
  ℕ, ◌≤◌, ◌≡◌, ◌≢◌, ◌↔◌, ◌⊎◌, inl, inr, refl, Bool, true, false, not, ◌||◌, List, [], ◌∷◌, All, all,
  all-All, arith, is_empty, Bool-cases,
}
use rustee_web_framework.Text.{
  Text, byte_len, codes, has_char, is_ascii_alphanumeric, is_ascii_control,
}
use rustee_web_framework.Text.Trim.{trim}
use rustee_web_framework.Oidc.Values.{
  is_valid_oauth_authorization_value, is_valid_oauth_authorization_code,
}

abbrev pub IsAlphanumeric : ℕ → Type 0
IsAlphanumeric c =
    ((b'0' ≤ c) × (c ≤ b'9')) ⊎ (((b'a' ≤ c) × (c ≤ b'z')) ⊎ ((b'A' ≤ c) × (c ≤ b'Z')))

-- RFC 7636, 4.1: the unreserved characters.
abbrev pub IsUnreserved : ℕ → Type 0
IsUnreserved c = IsAlphanumeric c ⊎ ((c ≡ b'-') ⊎ ((c ≡ b'.') ⊎ ((c ≡ b'_') ⊎ (c ≡ b'~'))))

IsUnreserved-iff :
    (c : ℕ) → ((is_ascii_alphanumeric c || has_char c (codes "-._~")) ≡ true) ↔ IsUnreserved c
IsUnreserved-iff c = ground arith

All-both : (P Q : ℕ → Type 0) (xs : List ℕ) → ((x : ℕ) → P x ↔ Q x) → All P xs ↔ All Q xs
All-both P Q [] h = (λ k. k, λ k. k)
All-both P Q (x ∷ xs) h =
    (λ (p, k). ((h x).0 p, (All-both P Q xs h).0 k), λ (q, k). ((h x).1 q, (All-both P Q xs h).1 k))

-- The characters that pass a test are the characters with a property.
pub all_iff :
    (p : ℕ → Bool) (Q : ℕ → Type 0) (xs : List ℕ)
    → ((x : ℕ) → (p x ≡ true) ↔ Q x)
    → (all p xs ≡ true) ↔ All Q xs
all_iff p Q xs h =
    let (to, from) = all-All p xs in
    let (there, back) = All-both (λ x. p x ≡ true) Q xs h in (λ e. there (to e), λ k. from (back k))

abbrev pub IsAuthorizationValue : Text → Type 0
IsAuthorizationValue value = (43 ≤ byte_len value) × (byte_len value ≤ 128) × All IsUnreserved value

pub IsAuthorizationValue-iff :
    (value : Text) → (is_valid_oauth_authorization_value value ≡ true) ↔ IsAuthorizationValue value
unfolding is_valid_oauth_authorization_value
IsAuthorizationValue-iff value = ground (arith, all_iff _ IsUnreserved value IsUnreserved-iff)

-- The character is no control character of ASCII.
abbrev pub IsPrinted : ℕ → Type 0
IsPrinted c = (32 ≤ c) × (c ≢ 127)

IsPrinted-iff : (c : ℕ) → (not (is_ascii_control c) ≡ true) ↔ IsPrinted c
IsPrinted-iff c = ground arith

abbrev pub IsAuthorizationCode : ℕ → Text → Type 0
IsAuthorizationCode max_value_bytes code =
    (trim code ≢ []) × (byte_len code ≤ max_value_bytes) × All IsPrinted code

pub is_empty_iff : (s : Text) → (is_empty s ≡ false) ↔ (s ≢ [])
is_empty_iff [] = (λ h. cc, λ h. absurd (h refl))
is_empty_iff (c ∷ s) = (λ h e. cc, λ h. refl)

pub IsAuthorizationCode-iff :
    (code : Text) (max_value_bytes : ℕ)
    → (is_valid_oauth_authorization_code code max_value_bytes ≡ true)
      ↔ IsAuthorizationCode max_value_bytes code
unfolding is_valid_oauth_authorization_code
IsAuthorizationCode-iff code max_value_bytes =
    let (to, from) = all_iff _ IsPrinted code IsPrinted-iff in
    let (full, filled) = is_empty_iff (trim code) in
    elim (Bool-cases (is_empty (trim code))) [
      | inl blank ↦ (
        λ h. absurd (ground (arith, blank, h)),
        λ (h, _, _). absurd (ground (arith, blank, filled h)),
      )
      | inr written ↦ (
        λ h. (full written, ground (arith, written, h), to (ground (arith, written, h))),
        λ (_, bound, k). let printed = from k in ground (arith, written, bound, printed),
      )
    ]
