-- ===== src/Negotiation/Accepted.antt =====
-- Which quality `encoding_quality` of crates/rustee-static/src/encoding.rs gives an encoding.
use rustee_web_framework.Prelude.{
  ℕ, ◌≤◌, ◌<◌, ◌≡◌, refl, sym, ap, subst, ◌∙◌, ◌↔◌, ◌⊎◌, inl, inr, Bool, true, false, Option, none,
  some, List, [], ◌∷◌, if◌then◌else◌, arith, All, Any, Bool-cases,
}
use rustee_web_framework.Text.{Text}
use rustee_web_framework.Negotiation.{
  Values, item_quality, scan_values, start, positive, or, PrecompressedEncoding, encoding_token,
  encoding_quality,
}
use rustee_web_framework.Negotiation.Highest.{
  items_of, names, is_wildcard, IsHighest, scan_values-IsScan, scan_values-missing,
}

IsHighest-exists :
    (p : Text → Bool) (items : List Text) (a b : ℕ)
    → Any (λ item. (p item ≡ true) × (item_quality item ≡ a)) items
    → All (λ item. (p item ≡ false) ⊎ (item_quality item ≤ b)) items
    → a ≤ b
IsHighest-exists p [] a b h k = absurd h
IsHighest-exists p (item ∷ items) a b (inl (fits, same)) (inl other, _) =
    absurd (ground (arith, fits, other))
IsHighest-exists p (item ∷ items) a b (inl (fits, same)) (inr below, _) = omega (arith, same, below)
IsHighest-exists p (item ∷ items) a b (inr h) (_, k) = IsHighest-exists p items a b h k

none_fits :
    (p : Text → Bool) (items : List Text) (a : ℕ)
    → Any (λ item. (p item ≡ true) × (item_quality item ≡ a)) items
    → ¬ All (λ item. p item ≡ false) items
none_fits p [] a h k = absurd h
none_fits p (item ∷ items) a (inl (fits, same)) (other, _) = absurd (ground (arith, fits, other))
none_fits p (item ∷ items) a (inr h) (_, k) = none_fits p items a h k

-- There is one highest quality.
IsHighest-unique :
    (p : Text → Bool) (items : List Text) (a b : Option ℕ)
    → IsHighest p items a
    → IsHighest p items b
    → a ≡ b
IsHighest-unique p items none none h k = refl
IsHighest-unique p items none (some b) h (there, _) = absurd (none_fits p items b there h)
IsHighest-unique p items (some a) none (there, _) k = absurd (none_fits p items a there k)
IsHighest-unique p items (some a) (some b) (there, bound) (here, limit) = ap some (
    omega
      (arith, IsHighest-exists p items a b there limit, IsHighest-exists p items b a here bound))

-- RFC 9110, 12.5.3: the items give a coding this quality, which is not zero. It is the highest of the
-- items that name the coding, and where no item does, the highest of the wildcard.
abbrev pub Accepts : Text → List Text → ℕ → Type 0
Accepts token items quality =
    (0 < quality)
    × (IsHighest (names token) items (some quality)
        ⊎ (IsHighest (names token) items none × IsHighest (is_wildcard token) items (some quality)))

positive_iff :
    (token : Text) (items : List Text) (explicit wildcard : Option ℕ) (quality : ℕ)
    → IsHighest (names token) items explicit
    → IsHighest (is_wildcard token) items wildcard
    → (positive (or explicit wildcard) ≡ some quality) ↔ Accepts token items quality
positive_iff token items (some e) wildcard quality named wild = (
  λ h.
      let same : (e ≡ quality) = ground (arith, h) in
      (ground (arith, h), inl (subst (λ q. IsHighest (names token) items (some q)) same named)),
  λ (more, given). elim given [
    | inl other ↦
        let same = IsHighest-unique (names token) items (some e) (some quality) named other in
        ground (arith, same, more)
    | inr (nobody, _) ↦
        let clash = IsHighest-unique (names token) items (some e) none named nobody in
        absurd (ground (arith, clash))
  ],
)
positive_iff token items none none quality named wild = (
  λ h. absurd (ground (arith, h)),
  λ (more, given). elim given [
    | inl other ↦
        let clash = IsHighest-unique (names token) items none (some quality) named other in
        absurd (ground (arith, clash))
    | inr (_, other) ↦
        let clash = IsHighest-unique (is_wildcard token) items none (some quality) wild other in
        absurd (ground (arith, clash))
  ],
)
positive_iff token items none (some w) quality named wild = (
  λ h.
      let same : (w ≡ quality) = ground (arith, h) in
      (
        ground (arith, h),
        inr (named, subst (λ q. IsHighest (is_wildcard token) items (some q)) same wild),
      ),
  λ (more, given). elim given [
    | inl other ↦
        let clash = IsHighest-unique (names token) items none (some quality) named other in
        absurd (ground (arith, clash))
    | inr (_, other) ↦
        let same = IsHighest-unique (is_wildcard token) items (some w) (some quality) wild other in
        ground (arith, same, more)
  ],
)

-- The loop gives exactly the quality of RFC 9110.
pub encoding_quality_iff :
    (values : Values) (e : PrecompressedEncoding) (quality : ℕ)
    → (encoding_quality values e ≡ some quality)
      ↔ Accepts (encoding_token e) (items_of values) quality
unfolding encoding_quality
encoding_quality_iff values e quality =
    let token = encoding_token e in
    let scan = scan_values token values start in
    let (explicit, wildcard) = scan_values-IsScan token values [] start (tt, tt) in
    let outcome =
      positive_iff token (items_of values) scan.explicit scan.wildcard quality explicit wildcard in
    let read : ((if scan.found then positive (or scan.explicit scan.wildcard) else none)
        ≡ positive (or scan.explicit scan.wildcard)) =
      elim (Bool-cases scan.found) [
        | inl found ↦ rw found refl
        | inr missing ↦
            let untouched = scan_values-missing token values start missing in
            let no_explicit = ap (λ s. s.explicit) untouched in
            let no_wildcard = ap (λ s. s.wildcard) untouched in
            rw (missing, no_explicit, no_wildcard) refl
      ] in
    (λ h. outcome.0 (sym read ∙ h), λ k. read ∙ outcome.1 k)
