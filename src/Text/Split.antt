-- ===== src/Text/Split.antt =====
-- `str::split`, `str::split_once` and `join`.
use rustee_web_framework.Prelude.{
  ℕ, ◌≡◌, refl, Bool, false, not, Option, none, some, List, [], ◌∷◌, ◌++◌, arith, ◌==◌,
  if◌then◌else◌, is_empty, keep, All,
}
use rustee_web_framework.Text.{Text}
use rustee_web_framework.Text.Trim.{trim_start, trim_end, trim_matches}

-- `str::split` at a character gives one part at least: the first, and the others.
unfoldable pub split_first : ℕ → Text → Text × List Text
split_first sep [] = ([], [])
split_first sep (c ∷ s) =
    let rest = split_first sep s in if c == sep then ([], rest.0 ∷ rest.1) else (c ∷ rest.0, rest.1)

unfoldable pub split : ℕ → Text → List Text
unfolding split_first
split sep s = (split_first sep s).0 ∷ (split_first sep s).1

-- `str::split_once` at a character.
unfoldable pub split_once : ℕ → Text → Option (Text × Text)
split_once sep [] = none
split_once sep (c ∷ s) =
    let rest = split_once sep s in
    if c == sep then some ([], s) else elim rest [ none ↦ none | some (a, b) ↦ some (c ∷ a, b) ]

-- `[String]::join`.
unfoldable pub join : Text → List Text → Text
join sep [] = []
join sep (w ∷ []) = w
join sep (w ∷ v ∷ ws) = w ++ (sep ++ join sep (v ∷ ws))

abbrev pub Lacks : ℕ → Text → Type 0
Lacks sep s = All (λ c. (c == sep) ≡ false) s

abbrev pub nonempty : Text → Bool
nonempty s = not (is_empty s)

-- A part that holds no separator is one part, and goes before what follows it.
pub split_first-Lacks : (sep : ℕ) (w : Text) → Lacks sep w → split_first sep w ≡ (w, [])
unfolding split_first
split_first-Lacks sep [] h = refl
split_first-Lacks sep (c ∷ w) (p, h) = rw (p, split_first-Lacks sep w h)

pub split_first-append :
    (sep : ℕ) (w s : Text) → Lacks sep w → split_first sep (w ++ sep ∷ s) ≡ (w, split sep s)
unfolding split_first split
split_first-append sep [] s h = ground arith
split_first-append sep (c ∷ w) s (p, h) = rw (p, split_first-append sep w s h)

-- Every part lacks the separator.
split_first-parts_Lack :
    (sep : ℕ) (s : Text) → Lacks sep (split_first sep s).0 × All (Lacks sep) (split_first sep s).1
unfolding split_first
split_first-parts_Lack sep [] = (tt, tt)
split_first-parts_Lack sep (c ∷ s) = ground (arith, split_first-parts_Lack sep s)

pub split-parts_Lack : (sep : ℕ) (s : Text) → All (Lacks sep) (split sep s)
unfolding split
split-parts_Lack sep s = split_first-parts_Lack sep s

-- Trimming the separator at the front leaves the parts that are not empty.
keep-split-trim_start :
    (sep : ℕ) (s : Text)
    → keep nonempty (split sep (trim_start (λ c. c == sep) s)) ≡ keep nonempty (split sep s)
unfolding split split_first trim_start
keep-split-trim_start sep [] = refl
keep-split-trim_start sep (c ∷ s) = ground (arith, keep-split-trim_start sep s)

-- At the back it leaves the first part too.
split_first-trim_end :
    (sep : ℕ) (s : Text)
    → ((split_first sep (trim_end (λ c. c == sep) s)).0 ≡ (split_first sep s).0)
      × (keep nonempty (split_first sep (trim_end (λ c. c == sep) s)).1
          ≡ keep nonempty (split_first sep s).1)
unfolding split_first trim_end
split_first-trim_end sep [] = (refl, refl)
split_first-trim_end sep (c ∷ s) = ground (arith, split_first-trim_end sep s)

-- The parts that are not empty do not depend on separators at either end.
pub keep-split-trim_matches :
    (sep : ℕ) (s : Text)
    → keep nonempty (split sep (trim_matches (λ c. c == sep) s)) ≡ keep nonempty (split sep s)
unfolding split trim_matches
keep-split-trim_matches sep s =
    let (first, rest) = split_first-trim_end sep (trim_start (λ c. c == sep) s) in
    rw (first, rest) (keep-split-trim_start sep s)

-- What `split_once` finds: the text before the first separator, and all that follows it.
pub split_once_parts :
    (sep : ℕ) (s a b : Text) → split_once sep s ≡ some (a, b) → Lacks sep a × (s ≡ a ++ sep ∷ b)
unfolding split_once
split_once_parts sep [] a b h = cc
split_once_parts sep (c ∷ s) [] b h = ground arith
split_once_parts sep (c ∷ s) (d ∷ a) b h = ground (arith, split_once_parts sep s a b)

pub split_once-append :
    (sep : ℕ) (a b : Text) → Lacks sep a → split_once sep (a ++ sep ∷ b) ≡ some (a, b)
unfolding split_once
split_once-append sep [] b h = ground arith
split_once-append sep (c ∷ a) b (p, h) = rw (p, split_once-append sep a b h)
