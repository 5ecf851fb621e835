-- ===== src/AssocMap/Distinct.antt =====
-- Maps in which no key stands twice, which the operations of the parent module keep so.
use rustee_web_framework.Prelude.{
  ◌≤◌, ◌≡◌, refl, sym, ◌∙◌, ◌↔◌, inl, inr, Bool, true, false, none, List, [], ◌∷◌, arith, length,
  Bool-cases,
}
use rustee_web_framework.AssocMap.{get, insert, remove, retain, filter, get-insert_other}

module _ {K S : Type 0} (same : K → K → Bool) where
  abbrev pub Distinct : List (K × S) → Type 0
  Distinct [] = Unit
  Distinct ((key, state) ∷ entries) = (get same key entries ≡ none) × Distinct entries

  pub length-retain :
      (p : S → Bool) (entries : List (K × S)) → length (retain p entries) ≤ length entries
  unfolding retain
  length-retain p [] = omega arith
  length-retain p ((key, state) ∷ entries) = ground (arith, length-retain p entries)

  pub length-remove :
      (key : K) (entries : List (K × S)) → length (remove same key entries) ≤ length entries
  unfolding remove
  length-remove key [] = omega arith
  length-remove key ((other, state) ∷ entries) = ground (arith, length-remove key entries)

  pub get-retain_none :
      (p : S → Bool) (key : K) (entries : List (K × S))
      → get same key entries ≡ none
      → get same key (retain p entries) ≡ none
  unfolding get retain
  get-retain_none p key [] h = refl
  get-retain_none p key ((other, state) ∷ entries) h = ground (arith, get-retain_none p key entries)

  pub retain-Distinct :
      (p : S → Bool) (entries : List (K × S)) → Distinct entries → Distinct (retain p entries)
  unfolding retain
  retain-Distinct p [] h = tt
  retain-Distinct p ((key, state) ∷ entries) (fresh, h) =
      let rest = retain-Distinct p entries h in
      let still = get-retain_none p key entries fresh in
      elim (Bool-cases (p state)) [ inl keeps ↦ rw keeps (still, rest) | inr drops ↦ rw drops rest ]

  module _ (same_iff : (a b : K) → (same a b ≡ true) ↔ (a ≡ b)) where
    pub get-retain :
        (p : S → Bool) (key : K) (entries : List (K × S))
        → Distinct entries
        → get same key (retain p entries) ≡ filter p (get same key entries)
    unfolding get retain
    get-retain p key [] h = refl
    get-retain p key ((other, state) ∷ entries) (fresh, h) = elim (Bool-cases (same key other)) [
      | inl at ↦
          let equal = (same_iff key other).0 at in
          let gone : (get same key (retain p entries) ≡ none) =
            get-retain_none p key entries (rw equal fresh) in
          ground (arith, gone)
      | inr away ↦ ground (arith, get-retain p key entries h)
    ]

    pub get-remove :
        (key : K) (entries : List (K × S)) → get same key (remove same key entries) ≡ none
    unfolding get remove
    get-remove key [] = refl
    get-remove key ((other, state) ∷ entries) = ground (arith, get-remove key entries)

    pub get-remove_other :
        (key other : K) (entries : List (K × S))
        → same other key ≡ false
        → get same other (remove same key entries) ≡ get same other entries
    unfolding get remove
    get-remove_other key other [] h = refl
    get-remove_other key other ((here, state) ∷ entries) h =
        let rest = get-remove_other key other entries h in
        elim (Bool-cases (same key here)) [
          | inl at ↦
              let equal = (same_iff key here).0 at in
              let apart : (same other here ≡ false) = rw (sym equal) h in rw (at, apart) rest
          | inr away ↦ ground (arith, rest)
        ]

    pub remove-Distinct :
        (key : K) (entries : List (K × S)) → Distinct entries → Distinct (remove same key entries)
    unfolding remove
    remove-Distinct key [] h = tt
    remove-Distinct key ((other, state) ∷ entries) (fresh, h) =
        let rest = remove-Distinct key entries h in
        elim (Bool-cases (same key other)) [
          | inl at ↦ rw at rest
          | inr away ↦
              let apart : (same other key ≡ false) =
                ground (arith, same_iff key other, same_iff other key) in
              rw away (get-remove_other key other entries apart ∙ fresh, rest)
        ]

    pub insert-Distinct :
        (key : K) (state : S) (entries : List (K × S))
        → Distinct entries
        → Distinct (insert same key state entries)
    unfolding insert get
    insert-Distinct key state [] h = (refl, tt)
    insert-Distinct key state ((other, old) ∷ entries) (fresh, h) =
        elim (Bool-cases (same key other)) [
          | inl at ↦ rw at (fresh, h)
          | inr away ↦
              let apart : (same other key ≡ false) =
                ground (arith, same_iff key other, same_iff other key) in
              rw away (
                get-insert_other same same_iff key other state entries apart ∙ fresh,
                insert-Distinct key state entries h,
              )
        ]
