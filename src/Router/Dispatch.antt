-- ===== src/Router/Dispatch.antt =====
-- crates/rustee-router/src/dispatch.rs and nesting.rs: dispatch of a request, and calls of nested
-- services.
pub mod Outcome
use rustee_web_framework.Prelude.{
  ℕ, ◌≡◌, Bool, true, false, not, Option, none, some, List, [], ◌∷◌, ◌++◌, if◌then◌else◌,
}
use rustee_web_framework.Text.{Text, eqb, codes}
use rustee_web_framework.Text.Split.{join}
use rustee_web_framework.Router.Pattern.{strip}
use rustee_web_framework.Router.Table.{
  Request, Response, Http, Endpoint, Service, Route, NestedRoute, App, RouteClassification, matched,
  fallback, method_not_allowed, not_found, error_response, not_found_response,
}
use rustee_web_framework.Router.Select.{
  DirectRouteSelection, select_direct_route, select_nested_route,
}

unfoldable pub join_route_paths : Text → Text → Text
join_route_paths prefix path =
    if eqb prefix (codes "/") then path else if eqb path (codes "/") then prefix else prefix ++ path

-- `prefix.map_or_else(|| path, |prefix| join_route_paths(prefix, path))`, for the prefix of nested
-- services that a request carries.
abbrev pub behind : Option Text → Text → Text
behind none path = path
behind (some prefix) path = join_route_paths prefix path

unfoldable pub route_template_for_request : Request → Text → Text
route_template_for_request request template = behind request.nested_prefix template

abbrev pub with_query : Text → Option Text → Text
with_query path none = path
with_query path (some query) = path ++ (codes "?" ++ query)

module _ (http : Http) where
  -- `replace_request_path`; `none` is its result `false`, on which the request is dropped.
  unfoldable pub replace_request_path : Request → Text → Option Request
  replace_request_path request path = elim (http.path_and_query (with_query path request.query)) [
    | none ↦ none
    | some (p, q) ↦
        if http.from_parts request.origin (p, q)
        then some (record request { path = p; query = q })
        else none
  ]

  -- `NestedRoute::call`.
  unfoldable pub call_nested : NestedRoute → Request → Response
  unfolding replace_request_path
  call_nested route request = elim (strip route.prefix request.path) [
    | none ↦ not_found_response
    | some path ↦
        elim (replace_request_path
          (record request {
            nested_prefix = some (behind request.nested_prefix route.prefix.value);
          })
          path) [
            | none ↦ not_found_response
            | some inner ↦
                if route.poisoned
                then error_response 500 (codes "nested_service_unavailable")
                else route.service inner
          ]
  ]

  module _ {S : Type 0} where
    -- The branch of `dispatch` for the outcome of the direct selection.
    unfoldable pub after_selection : App S → Request → DirectRouteSelection (Endpoint S) → Response
    unfolding route_template_for_request call_nested
    after_selection app request (DirectRouteSelection.matched route params) =
        let template = route_template_for_request request route.template in
        let response =
          route.endpoint (record request { template = some template }) params app.state in
        record response { template = some template; classification = some (matched template) }
    after_selection app request (DirectRouteSelection.method_not_allowed allowed) = record {
      status = 405;
      code = codes "method_not_allowed";
      allow = http.header_value (join (codes ", ") allowed);
      template = none;
      classification = some method_not_allowed;
    }
    after_selection app request DirectRouteSelection.no_match =
        elim (select_nested_route app.nested_routes request.path) [
          | some nested ↦ call_nested nested request
          | none ↦ elim (app.fallback) [
            | some handler ↦
                let response = handler request [] app.state in
                record response { classification = some fallback }
            | none ↦ record not_found_response { classification = some not_found }
          ]
        ]

    -- `dispatch`, which `App::call` and the `Service` of an `App` are.
    unfoldable pub dispatch : App S → Request → Response
    unfolding after_selection
    dispatch app request =
        after_selection app request (select_direct_route app.routes request.path request.method)
