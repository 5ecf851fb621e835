-- ===== src/Router/Dispatch/Outcome.antt =====
-- What a dispatched request comes to: which of the direct routes, the nested services and the
-- fallback answers, and the route template that a nested application reports.
use rustee_web_framework.Prelude.{
  ◌≡◌, refl, ap, ◌∙◌, inl, inr, Bool, true, false, ◌≢◌, Option, none, some, List, [], ◌∷◌, ◌++◌,
  All, Any, arith, append_assoc, append-nil, Bool-cases, if◌then◌else◌,
}
use rustee_web_framework.Text.{Text, eqb, codes}
use rustee_web_framework.Router.Pattern.{RouteParams, NestedPrefix, strip}
use rustee_web_framework.Router.Pattern.Prefix.{IsPrefixOf}
use rustee_web_framework.Router.Pattern.Render.{render_path, slashed}
use rustee_web_framework.Router.Table.{
  Request, Response, Http, Endpoint, Service, Route, NestedRoute, App, matched,
}
use rustee_web_framework.Router.Select.{
  DirectRouteSelection, select_direct_route, select_nested_route,
}
use rustee_web_framework.Router.Select.Direct.{fits, select_direct_route-Describes}
use rustee_web_framework.Router.Dispatch.{
  behind, join_route_paths, route_template_for_request, with_query, call_nested, after_selection,
  dispatch,
}

ne_root-append :
    (a b : Text)
    → eqb a (codes "/") ≡ false
    → eqb b (codes "/") ≡ false
    → eqb (a ++ b) (codes "/") ≡ false
ne_root-append [] b h k = k
ne_root-append (x ∷ []) [] h k = h
ne_root-append (x ∷ []) (y ∷ b) h k = ground arith
ne_root-append (x ∷ y ∷ a) b h k = ground arith

-- Joining route paths is associative, so the template of a route below several nested
-- applications does not depend on where the prefixes are joined.
pub join_route_paths_assoc :
    (a b c : Text)
    → join_route_paths (join_route_paths a b) c ≡ join_route_paths a (join_route_paths b c)
unfolding join_route_paths
join_route_paths_assoc a b c =
    ground (arith, ne_root-append a b, ne_root-append b c, append_assoc a b c)

behind-behind :
    (o : Option Text) (prefix template : Text)
    → behind (some (behind o prefix)) template ≡ behind o (join_route_paths prefix template)
behind-behind none prefix template = refl
behind-behind (some parent) prefix template = join_route_paths_assoc parent prefix template

-- What a path adds to the prefix in front of it: nothing, where it is the root.
abbrev pub below_root : Text → Text
below_root path = if eqb path (codes "/") then [] else path

-- What the prefix that a request carries adds to a template.
abbrev pub outer : Option Text → Text
outer none = []
outer (some prefix) = below_root prefix

join_route_paths-below_root :
    (prefix path : Text)
    → eqb prefix (codes "/") ≡ false
    → (join_route_paths prefix path ≡ prefix ++ below_root path)
      × (eqb (join_route_paths prefix path) (codes "/") ≡ false)
unfolding join_route_paths
join_route_paths-below_root prefix path h = elim (Bool-cases (eqb path (codes "/"))) [
  | inl root ↦ (ground (arith, h, root, append-nil prefix), ground (arith, h, root))
  | inr long ↦
      let apart = ne_root-append prefix path h long in
      (ground (arith, h, long), ground (arith, h, long, apart))
]

behind-outer :
    (o : Option Text) (path : Text) → eqb path (codes "/") ≡ false → behind o path ≡ outer o ++ path
unfolding join_route_paths
behind-outer none path h = refl
behind-outer (some prefix) path h = ground (arith, h)

-- A valid nested prefix is not the root.
prefix_ne_root :
    (prefix : NestedPrefix) (parts : List Text)
    → IsPrefixOf prefix parts
    → eqb prefix.value (codes "/") ≡ false
unfolding render_path slashed
prefix_ne_root prefix [] h = absurd (ground (arith, h.some_part))
prefix_ne_root prefix ([] ∷ parts) h = absurd (ground (arith, h.fine))
prefix_ne_root prefix ((c ∷ w) ∷ parts) h = rw (h.value) (ground arith)

-- The request that a nested service receives.
abbrev inner : Request → NestedRoute → Text → Request
inner request nested rest = record request {
  nested_prefix = some (behind request.nested_prefix nested.prefix.value);
  path = rest;
}

template_inner :
    (request : Request) (nested : NestedRoute) (rest template : Text)
    → route_template_for_request (inner request nested rest) template
      ≡ route_template_for_request request (join_route_paths nested.prefix.value template)
unfolding route_template_for_request
template_inner request nested rest template =
    behind-behind request.nested_prefix nested.prefix.value template

call_nested_ok :
    (http : Http) (request : Request) (nested : NestedRoute) (rest : Text)
    → nested.poisoned ≡ false
    → strip nested.prefix request.path ≡ some rest
    → http.path_and_query (with_query rest request.query) ≡ some (rest, request.query)
    → http.from_parts request.origin (rest, request.query) ≡ true
    → call_nested http nested request ≡ nested.service (inner request nested rest)
unfolding call_nested
call_nested_ok http request nested rest free stripped parsed accepted =
    rw (stripped, call_nested) (rw (parsed, call_nested) (rw (accepted, free)))

module _ (http : Http) {S : Type 0} where
  selected_irrelevant :
      (app : App S) (request : Request) (nested : List NestedRoute) (f : Option (Endpoint S))
      (selection : DirectRouteSelection (Endpoint S))
      → selection ≢ DirectRouteSelection.no_match
      → after_selection http app request selection
        ≡ after_selection http
            (record app { nested_routes = nested; fallback = f })
            request
            selection
  unfolding after_selection
  selected_irrelevant app request nested f (DirectRouteSelection.matched route params) h = refl
  selected_irrelevant app request nested f (DirectRouteSelection.method_not_allowed allowed) h =
      refl
  selected_irrelevant app request nested f DirectRouteSelection.no_match h = absurd (h refl)

  no_match_of :
      (routes : List (Route (Endpoint S))) (path method : Text)
      → select_direct_route routes path method ≡ DirectRouteSelection.no_match
      → All (λ route. fits path method route ≡ false) routes
  no_match_of routes path method e = rw e at (select_direct_route-Describes routes path method)

  disjoint :
      (p : Route (Endpoint S) → Bool) (routes : List (Route (Endpoint S)))
      → Any (λ route. p route ≡ true) routes
      → ¬ All (λ route. p route ≡ false) routes
  disjoint p [] h k = absurd h
  disjoint p (route ∷ routes) (inl h) (k, ks) = cc
  disjoint p (route ∷ routes) (inr h) (k, ks) = disjoint p routes h ks

  -- Where the pattern of a direct route matches the path, whatever its method, the nested services
  -- and the fallback have no influence on the response.
  dispatch_direct_first :
      (app : App S) (request : Request) (nested : List NestedRoute) (f : Option (Endpoint S))
      → Any (λ route. fits request.path request.method route ≡ true) app.routes
      → dispatch http app request
        ≡ dispatch http (record app { nested_routes = nested; fallback = f }) request
  unfolding dispatch
  dispatch_direct_first app request nested f h =
      selected_irrelevant app request nested f
        (select_direct_route app.routes request.path request.method)
        (λ e.
          disjoint (fits request.path request.method) app.routes h
            (no_match_of app.routes request.path request.method e))

  called :
      (app : App S) (request : Request) (nested : NestedRoute)
      → select_direct_route app.routes request.path request.method ≡ DirectRouteSelection.no_match
      → select_nested_route app.nested_routes request.path ≡ some nested
      → dispatch http app request ≡ call_nested http nested request
  unfolding dispatch after_selection
  called app request nested direct below = rw direct (rw (below, after_selection))

  -- The template as `NestedRoute::call` and the child compute it.
  nested_template :
      {T : Type 0} (app : App S) (child : App T) (request : Request) (nested : NestedRoute)
      (rest : Text) (route : Route (Endpoint T)) (params : RouteParams)
      → select_direct_route app.routes request.path request.method ≡ DirectRouteSelection.no_match
      → select_nested_route app.nested_routes request.path ≡ some nested
      → nested.service ≡ dispatch http child
      → nested.poisoned ≡ false
      → strip nested.prefix request.path ≡ some rest
      → http.path_and_query (with_query rest request.query) ≡ some (rest, request.query)
      → http.from_parts request.origin (rest, request.query) ≡ true
      → select_direct_route child.routes rest request.method
        ≡ DirectRouteSelection.matched route params
      → let response = dispatch http app request in
        let template =
          route_template_for_request request
            (join_route_paths nested.prefix.value route.template) in
        (response.template ≡ some template) × (response.classification ≡ some (matched template))
  unfolding dispatch
  nested_template app child request nested rest route params direct below service free stripped
        parsed accepted found =
      let same =
        called app request nested direct below
        ∙ call_nested_ok http request nested rest free stripped parsed accepted
        ∙ ap (λ (f : Service). f (inner request nested rest)) service
        ∙ ap (after_selection http child (inner request nested rest)) found in
      let spelled = template_inner request nested rest route.template in
      (
        ap (λ (r : Response). r.template) same ∙ unfold after_selection in ap some spelled,
        ap (λ (r : Response). r.classification) same
            ∙ unfold after_selection in ap (λ t. some (matched t)) spelled,
      )

  -- A request that no direct route matches and that is below the selected nested application, whose
  -- prefix is a valid one and whose lock is not poisoned and which has a route for the rest of the
  -- path, is reported, where the `http` crate reads that rest and the query back as they are, under a
  -- template that is the text of three parts: the nested prefix that the request already carries, if
  -- any, the prefix of the nested application, and the route's own template, where the first and the
  -- last add nothing if they are "/". The classification has the same template.
  pub dispatch_nested_template :
      {T : Type 0} (app : App S) (child : App T) (request : Request) (nested : NestedRoute)
      (parts : List Text) (rest : Text) (route : Route (Endpoint T)) (params : RouteParams)
      → select_direct_route app.routes request.path request.method ≡ DirectRouteSelection.no_match
      → select_nested_route app.nested_routes request.path ≡ some nested
      → IsPrefixOf nested.prefix parts
      → nested.service ≡ dispatch http child
      → nested.poisoned ≡ false
      → strip nested.prefix request.path ≡ some rest
      → http.path_and_query (with_query rest request.query) ≡ some (rest, request.query)
      → http.from_parts request.origin (rest, request.query) ≡ true
      → select_direct_route child.routes rest request.method
        ≡ DirectRouteSelection.matched route params
      → let response = dispatch http app request in
        let template =
          outer request.nested_prefix ++ (nested.prefix.value ++ below_root route.template) in
        (response.template ≡ some template) × (response.classification ≡ some (matched template))
  unfolding route_template_for_request
  dispatch_nested_template app child request nested parts rest route params direct below valid
        service free stripped parsed accepted found =
      let (template, classification) =
        nested_template app child request nested rest route params direct below service free
          stripped parsed accepted found in
      let (joined, apart) =
        join_route_paths-below_root nested.prefix.value route.template
          (prefix_ne_root nested.prefix parts valid) in
      let spelled =
        behind-outer request.nested_prefix (join_route_paths nested.prefix.value route.template)
          apart
        ∙ ap (λ path. outer request.nested_prefix ++ path) joined in
      (template ∙ ap some spelled, classification ∙ ap (λ path. some (matched path)) spelled)
