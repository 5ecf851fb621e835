-- ===== src/Text/Ordered.antt =====
-- `BTreeSet<&str>`: texts in ascending order, without repetition. The order of the bytes of UTF-8
-- is the order of the code points.
use rustee_web_framework.Prelude.{◌≡◌, refl, ◌||◌, List, [], ◌∷◌, arith, any, compare, Ordering}
use rustee_web_framework.Text.{Text, eqb}

unfoldable pub compare_text : Text → Text → Ordering
compare_text [] [] = Ordering.eq
compare_text [] (b ∷ t) = Ordering.lt
compare_text (a ∷ s) [] = Ordering.gt
compare_text (a ∷ s) (b ∷ t) =
    let rest = compare_text s t in
    elim (compare a b) [
      | Ordering.lt ↦ Ordering.lt
      | Ordering.eq ↦ rest
      | Ordering.gt ↦ Ordering.gt
    ]

-- `BTreeSet::insert`.
unfoldable pub insert : Text → List Text → List Text
unfolding compare_text
insert x [] = x ∷ []
insert x (y ∷ ys) =
    let rest = insert x ys in
    elim (compare_text x y) [
      | Ordering.lt ↦ x ∷ y ∷ ys
      | Ordering.eq ↦ y ∷ ys
      | Ordering.gt ↦ y ∷ rest
    ]

compare_text-eq : (s t : Text) → compare_text s t ≡ Ordering.eq → s ≡ t
unfolding compare_text
compare_text-eq [] [] h = refl
compare_text-eq [] (b ∷ t) h = cc
compare_text-eq (a ∷ s) [] h = cc
compare_text-eq (a ∷ s) (b ∷ t) h = ground (arith, compare_text-eq s t)

compare_text-gt : (s t : Text) → compare_text s t ≡ Ordering.gt → compare_text t s ≡ Ordering.lt
unfolding compare_text
compare_text-gt [] [] h = cc
compare_text-gt [] (b ∷ t) h = cc
compare_text-gt (a ∷ s) [] h = refl
compare_text-gt (a ∷ s) (b ∷ t) h = ground (arith, compare_text-gt s t)

-- Ascending, so without repetition.
abbrev pub Ascending : List Text → Type 0
Ascending [] = Unit
Ascending (x ∷ []) = Unit
Ascending (x ∷ y ∷ ys) = (compare_text x y ≡ Ordering.lt) × Ascending (y ∷ ys)

pub any-insert :
    (m x : Text) (ys : List Text) → any (eqb m) (insert x ys) ≡ (eqb m x || any (eqb m) ys)
unfolding insert
any-insert m x [] = refl
any-insert m x (y ∷ ys) = ground (arith, compare_text-eq x y, any-insert m x ys)

pub insert-Ascending : (x : Text) (ys : List Text) → Ascending ys → Ascending (insert x ys)
unfolding insert
insert-Ascending x [] h = tt
insert-Ascending x (y ∷ []) h = ground (arith, compare_text-gt x y)
insert-Ascending x (y ∷ z ∷ ys) (p, h) =
    ground (arith, compare_text-gt x y, compare_text-gt x z, insert-Ascending x (z ∷ ys) h)
