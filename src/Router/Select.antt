-- ===== src/Router/Select.antt =====
-- crates/rustee-router/src/dispatch.rs: the choice of a direct route and of a nested one.
pub mod Direct
pub mod Nested
use rustee_web_framework.Prelude.{
  ℕ, ◌≡◌, Bool, true, false, not, Option, none, some, List, [], ◌∷◌, if◌then◌else◌, is_empty,
  compare, Ordering,
}
use rustee_web_framework.Text.{Text, eqb}
use rustee_web_framework.Text.Ordered.{insert}
use rustee_web_framework.Router.Pattern.{RouteParams, matches, strip}
use rustee_web_framework.Router.Table.{Route, NestedRoute}

pub data DirectRouteSelection (E : Type 0) : Type 0 where
  matched : Route E → RouteParams → DirectRouteSelection E
  method_not_allowed : List Text → DirectRouteSelection E
  no_match : DirectRouteSelection E

-- `Ordering::then_with`, and `== Ordering::Greater`.
abbrev pub then_with : Ordering → Ordering → Ordering
then_with Ordering.lt o = Ordering.lt
then_with Ordering.eq o = o
then_with Ordering.gt o = Ordering.gt

abbrev pub is_greater : Ordering → Bool
is_greater Ordering.lt = false
is_greater Ordering.eq = false
is_greater Ordering.gt = true

abbrev pub Candidate : Type 0 → Type 0
Candidate E = Option (Route E × RouteParams)

module _ {E : Type 0} where
  unfoldable pub compare_routes : Route E → Route E → Ordering
  compare_routes left right =
      then_with (compare left.pattern.static_segments right.pattern.static_segments)
        (compare right.order left.order)

  unfoldable pub replaces : Route E → Candidate E → Bool
  unfolding compare_routes
  replaces route none = true
  replaces route (some (current, params)) = is_greater (compare_routes route current)

  -- The loop of `select_direct_route`, and the `match` that follows it.
  unfoldable pub select_from :
      List (Route E) → Text → Text → List Text → Candidate E → DirectRouteSelection E
  unfolding replaces
  select_from [] path method allowed (some (route, params)) = matched route params
  select_from [] path method allowed none =
      if not (is_empty allowed) then method_not_allowed allowed else no_match
  select_from (route ∷ routes) path method allowed candidate = elim (matches route.pattern path) [
    | none ↦ select_from routes path method allowed candidate
    | some params ↦ select_from routes path method (insert route.method allowed) (
        if not (eqb route.method method)
        then candidate
        else if replaces route candidate
        then some (route, params)
        else candidate)
  ]

  unfoldable pub select_direct_route : List (Route E) → Text → Text → DirectRouteSelection E
  unfolding select_from
  select_direct_route routes path method = select_from routes path method [] none

-- `NestedRoute::matches`.
unfoldable pub nested_matches : NestedRoute → Text → Bool
nested_matches route path = elim (strip route.prefix path) [ none ↦ false | some rest ↦ true ]

unfoldable pub is_more_specific_than : NestedRoute → NestedRoute → Bool
is_more_specific_than route other = is_greater (
    then_with (compare route.prefix.segment_count other.prefix.segment_count)
      (compare other.order route.order))

unfoldable pub improves : NestedRoute → Option NestedRoute → Bool
unfolding is_more_specific_than
improves route none = true
improves route (some current) = is_more_specific_than route current

unfoldable pub select_nested_from :
    List NestedRoute → Text → Option NestedRoute → Option NestedRoute
unfolding nested_matches improves
select_nested_from [] path candidate = candidate
select_nested_from (route ∷ routes) path candidate = select_nested_from routes path (
    if not (nested_matches route path)
    then candidate
    else if improves route candidate
    then some route
    else candidate)

unfoldable pub select_nested_route : List NestedRoute → Text → Option NestedRoute
unfolding select_nested_from
select_nested_route routes path = select_nested_from routes path none
