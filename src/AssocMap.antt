-- ===== src/AssocMap.antt =====
-- `BTreeMap`, as a list of its entries: a key is compared by the equality of its type.
pub mod Distinct
use rustee_web_framework.Prelude.{
  suc, ◌≡◌, refl, sym, ◌∙◌, ◌↔◌, inl, inr, Bool, true, false, Option, none, some, List, [], ◌∷◌,
  arith, if◌then◌else◌, length, Bool-cases,
}

module _ {K S : Type 0} where
  -- `BTreeMap::retain`, with a test on the states.
  unfoldable pub retain : (S → Bool) → List (K × S) → List (K × S)
  retain p [] = []
  retain p ((key, state) ∷ entries) =
      let rest = retain p entries in if p state then (key, state) ∷ rest else rest

-- `Option::filter`.
module _ {S : Type 0} where
  abbrev pub filter : (S → Bool) → Option S → Option S
  filter p none = none
  filter p (some state) = if p state then some state else none

module _ {K S : Type 0} (same : K → K → Bool) where
  -- `BTreeMap::get`.
  unfoldable pub get : K → List (K × S) → Option S
  get key [] = none
  get key ((other, state) ∷ entries) =
      let rest = get key entries in if same key other then some state else rest

  -- `BTreeMap::insert`, and an assignment through `get_mut`.
  unfoldable pub insert : K → S → List (K × S) → List (K × S)
  insert key state [] = (key, state) ∷ []
  insert key state ((other, old) ∷ entries) =
      let rest = insert key state entries in
      if same key other then (other, state) ∷ entries else (other, old) ∷ rest

  -- `BTreeMap::contains_key`.
  unfoldable pub contains_key : K → List (K × S) → Bool
  unfolding get
  contains_key key entries = elim (get key entries) [ none ↦ false | some state ↦ true ]

  -- `BTreeMap::remove`: the map without the key.
  unfoldable pub remove : K → List (K × S) → List (K × S)
  remove key [] = []
  remove key ((other, state) ∷ entries) =
      let rest = remove key entries in if same key other then rest else (other, state) ∷ rest

  pub length-insert_new :
      (key : K) (state : S) (entries : List (K × S))
      → get key entries ≡ none
      → length (insert key state entries) ≡ suc (length entries)
  unfolding get insert
  length-insert_new key state [] h = refl
  length-insert_new key state ((other, old) ∷ entries) h =
      ground (arith, length-insert_new key state entries)

  pub length-insert_old :
      (key : K) (state old : S) (entries : List (K × S))
      → get key entries ≡ some old
      → length (insert key state entries) ≡ length entries
  unfolding get insert
  length-insert_old key state old [] h = cc
  length-insert_old key state old ((other, there) ∷ entries) h =
      ground (arith, length-insert_old key state old entries)

  module _ (same_iff : (a b : K) → (same a b ≡ true) ↔ (a ≡ b)) where
    pub get-insert :
        (key : K) (state : S) (entries : List (K × S))
        → get key (insert key state entries) ≡ some state
    unfolding get insert
    get-insert key state [] = rw ((same_iff key key).1 refl) refl
    get-insert key state ((other, old) ∷ entries) = ground (arith, get-insert key state entries)

    pub get-insert_other :
        (key other : K) (state : S) (entries : List (K × S))
        → same other key ≡ false
        → get other (insert key state entries) ≡ get other entries
    unfolding get insert
    get-insert_other key other state [] h = rw h refl
    get-insert_other key other state ((here, old) ∷ entries) h =
        let rest = get-insert_other key other state entries h in
        elim (Bool-cases (same key here)) [
          | inl at ↦ elim (Bool-cases (same other here)) [
            | inl too ↦
                let equal =
                  (same_iff other key).1
                    ((same_iff other here).0 too ∙ sym ((same_iff key here).0 at)) in
                absurd (ground (arith, equal))
            | inr apart ↦ rw (at, apart) refl
          ]
          | inr away ↦ rw (away, rest) refl
        ]
