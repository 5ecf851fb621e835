-- ===== src/Negotiation/Highest.antt =====
-- The loops of `encoding_quality` in crates/rustee-static/src/encoding.rs: which of the qualities that
-- a header gives they keep.
use rustee_web_framework.Prelude.{
  ℕ, max, ◌≤◌, ◌≡◌, refl, subst, ◌∙◌, ◌⊎◌, inl, inr, Bool, true, false, not, ◌&&◌, Option, none,
  some, List, [], ◌∷◌, ◌++◌, leb, arith, append_assoc, append-nil, All, Any, All-append, Any-append,
  All-map_lem, Bool-cases,
}
use rustee_web_framework.Text.{Text, eqb, codes, eq_ignore_ascii_case}
use rustee_web_framework.Text.Split.{split}
use rustee_web_framework.Negotiation.{
  Values, item_token, item_quality, raise, Scan, scan_item, scan_items, scan_values,
}

-- The items of all readable values.
abbrev pub items_of : Values → List Text
items_of [] = []
items_of (none ∷ values) = items_of values
items_of (some value ∷ values) = split b',' value ++ items_of values

abbrev pub names : Text → Text → Bool
names token item = eq_ignore_ascii_case (item_token item) token

abbrev pub is_wildcard : Text → Text → Bool
is_wildcard token item = not (names token item) && eqb (item_token item) (codes "*")

-- The quality is the highest that these items have; there is none where there are no such items.
abbrev pub IsHighest : (Text → Bool) → List Text → Option ℕ → Type 0
IsHighest p items none = All (λ item. p item ≡ false) items
IsHighest p items (some quality) =
    Any (λ item. (p item ≡ true) × (item_quality item ≡ quality)) items
    × All (λ item. (p item ≡ false) ⊎ (item_quality item ≤ quality)) items

IsHighest-skip :
    (p : Text → Bool) (seen : List Text) (item : Text) (o : Option ℕ)
    → p item ≡ false
    → IsHighest p seen o
    → IsHighest p (seen ++ item ∷ []) o
IsHighest-skip p seen item none other h = All-append _ seen (item ∷ []) h (other, tt)
IsHighest-skip p seen item (some quality) other (there, bound) = (
  (Any-append _ seen (item ∷ [])).1 (inl there),
  All-append _ seen (item ∷ []) bound (inl other, tt),
)

IsHighest-raise :
    (p : Text → Bool) (seen : List Text) (item : Text) (o : Option ℕ)
    → p item ≡ true
    → IsHighest p seen o
    → IsHighest p (seen ++ item ∷ []) (raise o (item_quality item))
IsHighest-raise p seen item none fits h = (
  (Any-append _ seen (item ∷ [])).1 (inr (inl (fits, refl))),
  All-append _ seen (item ∷ []) (All-map_lem _ _ seen (λ x apart. inl apart) h)
      (inr (omega arith), tt),
)
IsHighest-raise p seen item (some old) fits (there, bound) =
    elim (Bool-cases (leb old (item_quality item))) [
      | inl more ↦
          let top : (max old (item_quality item) ≡ item_quality item) = ground (arith, more) in
          rw top (
            (Any-append _ seen (item ∷ [])).1 (inr (inl (fits, refl))),
            All-append _ seen (item ∷ [])
                (All-map_lem _ _ seen
                  (λ x. elim [
                    | inl apart ↦ inl apart
                    | inr below ↦ inr (ground (arith, below, more))
                  ])
                  bound)
                (inr (omega arith), tt),
          )
      | inr less ↦
          let top : (max old (item_quality item) ≡ old) = ground (arith, less) in
          rw top (
            (Any-append _ seen (item ∷ [])).1 (inl there),
            All-append _ seen (item ∷ []) bound (inr (ground (arith, less)), tt),
          )
    ]

-- The variables of the loop after these items.
abbrev pub IsScan : Text → List Text → Scan → Type 0
IsScan token seen scan =
    IsHighest (names token) seen scan.explicit × IsHighest (is_wildcard token) seen scan.wildcard

scan_item-IsScan :
    (token item : Text) (seen : List Text) (scan : Scan)
    → IsScan token seen scan
    → IsScan token (seen ++ item ∷ []) (scan_item token item scan)
scan_item-IsScan token item seen scan (explicit, wildcard) = elim (Bool-cases (names token item)) [
  | inl named ↦
      let other : (is_wildcard token item ≡ false) = ground (arith, named) in
      rw named (
        IsHighest-raise (names token) seen item scan.explicit named explicit,
        IsHighest-skip (is_wildcard token) seen item scan.wildcard other wildcard,
      )
  | inr other ↦ elim (Bool-cases (eqb (item_token item) (codes "*"))) [
    | inl star ↦
        let wild : (is_wildcard token item ≡ true) = ground (arith, other, star) in
        rw (other, star)
          (
            IsHighest-skip (names token) seen item scan.explicit other explicit,
            IsHighest-raise (is_wildcard token) seen item scan.wildcard wild wildcard,
          )
    | inr neither ↦
        let apart : (is_wildcard token item ≡ false) = ground (arith, other, neither) in
        rw (other, neither)
          (
            IsHighest-skip (names token) seen item scan.explicit other explicit,
            IsHighest-skip (is_wildcard token) seen item scan.wildcard apart wildcard,
          )
  ]
]

scan_items-IsScan :
    (token : Text) (items seen : List Text) (scan : Scan)
    → IsScan token seen scan
    → IsScan token (seen ++ items) (scan_items token items scan)
unfolding scan_items
scan_items-IsScan token [] seen scan h = rw (append-nil seen) h
scan_items-IsScan token (item ∷ items) seen scan h =
    subst (λ xs. IsScan token xs (scan_items token items (scan_item token item scan)))
      (append_assoc seen (item ∷ []) items)
      (scan_items-IsScan token items (seen ++ item ∷ []) (scan_item token item scan)
        (scan_item-IsScan token item seen scan h))

pub scan_values-IsScan :
    (token : Text) (values : Values) (seen : List Text) (scan : Scan)
    → IsScan token seen scan
    → IsScan token (seen ++ items_of values) (scan_values token values scan)
unfolding scan_values
scan_values-IsScan token [] seen scan h = rw (append-nil seen) h
scan_values-IsScan token (none ∷ values) seen scan h = scan_values-IsScan token values seen scan h
scan_values-IsScan token (some value ∷ values) seen scan h =
    let items = split b',' value in
    let after = scan_items token items (record scan { found = true }) in
    subst (λ xs. IsScan token xs (scan_values token values after))
      (append_assoc seen items (items_of values))
      (scan_values-IsScan token values (seen ++ items) after
        (scan_items-IsScan token items seen (record scan { found = true }) h))

scan_item-found : (token item : Text) (scan : Scan) → (scan_item token item scan).found ≡ scan.found
scan_item-found token item scan = ground arith

scan_items-found :
    (token : Text) (items : List Text) (scan : Scan)
    → (scan_items token items scan).found ≡ scan.found
unfolding scan_items
scan_items-found token [] scan = refl
scan_items-found token (item ∷ items) scan =
    scan_items-found token items (scan_item token item scan) ∙ scan_item-found token item scan

scan_values-found :
    (token : Text) (values : Values) (scan : Scan)
    → scan.found ≡ true
    → (scan_values token values scan).found ≡ true
unfolding scan_values
scan_values-found token [] scan h = h
scan_values-found token (none ∷ values) scan h = scan_values-found token values scan h
scan_values-found token (some value ∷ values) scan h =
    scan_values-found token values
      (scan_items token (split b',' value) (record scan { found = true }))
      (scan_items-found token (split b',' value) (record scan { found = true }))

-- A scan that has found no readable value has changed nothing.
pub scan_values-missing :
    (token : Text) (values : Values) (scan : Scan)
    → (scan_values token values scan).found ≡ false
    → scan_values token values scan ≡ scan
unfolding scan_values
scan_values-missing token [] scan h = refl
scan_values-missing token (none ∷ values) scan h = scan_values-missing token values scan h
scan_values-missing token (some value ∷ values) scan h =
    let read =
      scan_values-found token values
        (scan_items token (split b',' value) (record scan { found = true }))
        (scan_items-found token (split b',' value) (record scan { found = true })) in
    absurd (ground (arith, read, h))
