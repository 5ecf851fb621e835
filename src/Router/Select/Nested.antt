-- ===== src/Router/Select/Nested.antt =====
-- crates/rustee-router/src/dispatch.rs: what `select_nested_route` selects.
use rustee_web_framework.Prelude.{
  ◌≡◌, refl, ◌⊎◌, inl, inr, ◌≤◌, ◌<◌, true, false, not, Option, none, some, List, [], ◌∷◌, ◌++◌,
  if◌then◌else◌, All, Any, All-append, Any-append, All-map_lem, arith, append_assoc, append-nil,
  Bool-cases,
}
use rustee_web_framework.Text.{Text}
use rustee_web_framework.Router.Table.{NestedRoute}
use rustee_web_framework.Router.Select.{
  nested_matches, improves, select_nested_from, select_nested_route,
}

module _ (path : Text) where
  abbrev pub IsBelow : NestedRoute → Type 0
  IsBelow route = nested_matches route path ≡ true

  -- A nested route has a shorter prefix than another, or one as long and was not mounted earlier.
  abbrev pub NotCloser : NestedRoute → NestedRoute → Type 0
  NotCloser route best =
      (route.prefix.segment_count < best.prefix.segment_count)
      ⊎ ((route.prefix.segment_count ≡ best.prefix.segment_count) × (best.order ≤ route.order))

  abbrev pub IsClosest : List NestedRoute → Option NestedRoute → Type 0
  IsClosest routes none = All (λ route. nested_matches route path ≡ false) routes
  IsClosest routes (some best) =
      Any (λ route. route ≡ best) routes
      × IsBelow best
      × All (λ route. IsBelow route → NotCloser route best) routes

  abbrev next : NestedRoute → Option NestedRoute → Option NestedRoute
  next route candidate =
      if not (nested_matches route path)
      then candidate
      else if improves route candidate
      then some route
      else candidate

  closer_trans :
      (route best other : NestedRoute)
      → improves route (some best) ≡ true
      → NotCloser other best
      → NotCloser other route
  unfolding improves
  closer_trans route best other r w = ground arith

  loses : (route best : NestedRoute) → improves route (some best) ≡ false → NotCloser route best
  unfolding improves
  loses route best r = ground arith

  skipped :
      (seen : List NestedRoute) (candidate : Option NestedRoute) (route : NestedRoute)
      → IsClosest seen candidate
      → nested_matches route path ≡ false
      → IsClosest (seen ++ route ∷ []) candidate
  skipped seen none route h missed = All-append _ seen (route ∷ []) h (missed, tt)
  skipped seen (some best) route (listed, below, worse) missed = (
    (Any-append _ seen (route ∷ [])).1 (inl listed),
    below,
    All-append _ seen (route ∷ []) worse ((λ e. cc), tt),
  )

  entered :
      (seen : List NestedRoute) (candidate : Option NestedRoute) (route : NestedRoute)
      → IsClosest seen candidate
      → nested_matches route path ≡ true
      → improves route candidate ≡ true
      → IsClosest (seen ++ route ∷ []) (some route)
  entered seen none route h below r = (
    (Any-append _ seen (route ∷ [])).1 (inr (inl refl)),
    below,
    All-append _ seen (route ∷ []) (All-map_lem _ _ seen (λ other misses fits. cc) h)
        ((λ _. inr (refl, omega arith)), tt),
  )
  entered seen (some best) route (listed, _, worse) below r = (
    (Any-append _ seen (route ∷ [])).1 (inr (inl refl)),
    below,
    All-append _ seen (route ∷ [])
        (All-map_lem _ _ seen (λ other w fits. closer_trans route best other r (w fits)) worse)
        ((λ _. inr (refl, omega arith)), tt),
  )

  kept :
      (seen : List NestedRoute) (candidate : Option NestedRoute) (route : NestedRoute)
      → IsClosest seen candidate
      → improves route candidate ≡ false
      → IsClosest (seen ++ route ∷ []) candidate
  unfolding improves
  kept seen none route h r = cc
  kept seen (some best) route (listed, below, worse) r = (
    (Any-append _ seen (route ∷ [])).1 (inl listed),
    below,
    All-append _ seen (route ∷ []) worse ((λ _. loses route best r), tt),
  )

  next-IsClosest :
      (seen : List NestedRoute) (candidate : Option NestedRoute) (route : NestedRoute)
      → IsClosest seen candidate
      → IsClosest (seen ++ route ∷ []) (next route candidate)
  next-IsClosest seen candidate route h = elim (Bool-cases (nested_matches route path)) [
    | inl below ↦ elim (Bool-cases (improves route candidate)) [
      | inl wins ↦ rw (below, wins) (entered seen candidate route h below wins)
      | inr loss ↦ rw (below, loss) (kept seen candidate route h loss)
    ]
    | inr missed ↦ rw missed (skipped seen candidate route h missed)
  ]

  select_nested_from-IsClosest :
      (routes seen : List NestedRoute) (candidate : Option NestedRoute)
      → IsClosest seen candidate
      → IsClosest (seen ++ routes) (select_nested_from routes path candidate)
  unfolding select_nested_from
  select_nested_from-IsClosest [] seen candidate h = rw (append-nil seen) h
  select_nested_from-IsClosest (route ∷ routes) seen candidate h =
      rw (← append_assoc seen (route ∷ []) routes) (
        select_nested_from-IsClosest routes (seen ++ route ∷ []) (next route candidate)
          (next-IsClosest seen candidate route h))

-- The selected nested route is a listed one whose prefix the path is below, and no other such
-- route has a longer prefix, or one as long and an earlier registration; with no selection the path
-- is below no prefix.
pub select_nested_route-IsClosest :
    (routes : List NestedRoute) (path : Text)
    → IsClosest path routes (select_nested_route routes path)
unfolding select_nested_route
select_nested_route-IsClosest routes path = select_nested_from-IsClosest path routes [] none tt
