-- ===== src/Router/Table.antt =====
-- crates/rustee-router/src/app.rs and nesting.rs, and crates/rustee-core/src/routing.rs: requests,
-- responses, the application's tables of routes and nested services, and their registration.
-- A handler and a nested Tower service are functions, whatever they compute; the future that the
-- source returns is their result. `Http` is what the router calls of the `http` crate.
pub mod Registered
use rustee_web_framework.Prelude.{
  ℕ, ◌≡◌, Bool, true, false, ◌&&◌, Option, none, some, List, [], ◌∷◌, ◌++◌, if◌then◌else◌, any,
  length,
}
use rustee_web_framework.Prelude.Result.{Result, ok, err}
use rustee_web_framework.Text.{Text, eqb, codes}
use rustee_web_framework.Router.Pattern.{
  RoutePattern, RouteParams, RouteError, already_registered, parse, NestedPrefix, parse_prefix,
  is_equivalent_to,
}

-- The request's target, and the extensions that the router reads and writes. `origin` stands for
-- the scheme and authority of the URI, `body` for the headers and the body.
pub record Request : Type 0 where
  pub method : Text
  pub origin : Text
  pub path : Text
  pub query : Option Text
  pub nested_prefix : Option Text
  pub template : Option Text
  pub body : Text

pub data RouteClassification : Type 0 where
  matched : Text → RouteClassification
  fallback method_not_allowed not_found : RouteClassification

-- `RouteClassification::as_str`.
unfoldable pub as_str : RouteClassification → Text
as_str (matched template) = template
as_str fallback = codes "<fallback>"
as_str method_not_allowed = codes "<method-not-allowed>"
as_str not_found = codes "<not-found>"

pub record Response : Type 0 where
  pub status : ℕ
  pub code : Text
  pub allow : Option Text
  pub template : Option Text
  pub classification : Option RouteClassification

-- `Error::into_response`: the status, and the error's code in the body.
abbrev pub error_response : ℕ → Text → Response
error_response status code = record {
  status = status;
  code = code;
  allow = none;
  template = none;
  classification = none;
}

-- `Error::not_found`.
abbrev pub not_found_response : Response
not_found_response = error_response 404 (codes "not_found")

-- `HeaderValue::from_str`, `PathAndQuery::from_str` with the path and the query of its result, and
-- whether `Uri::from_parts` accepts these beside the request's origin.
pub record Http : Type 0 where
  pub header_value : Text → Option Text
  pub path_and_query : Text → Option (Text × Option Text)
  pub from_parts : Text → Text × Option Text → Bool

module _ (State : Type 0) where
  abbrev pub Endpoint : Type 0
  Endpoint = Request → RouteParams → State → Response

abbrev pub Service : Type 0
Service = Request → Response

pub record Route (E : Type 0) : Type 0 where
  pub method : Text
  pub pattern : RoutePattern
  pub template : Text
  pub endpoint : E
  pub order : ℕ

-- `poisoned` says that the lock around the service is poisoned.
pub record NestedRoute : Type 0 where
  pub prefix : NestedPrefix
  pub service : Service
  pub poisoned : Bool
  pub order : ℕ

pub record App (S : Type 0) : Type 0 where
  pub routes : List (Route (Endpoint S))
  pub nested_routes : List NestedRoute
  pub state : S
  pub fallback : Option (Endpoint S)

module _ {S : Type 0} where
  -- `App::new`, with the state that `with_state` has built up.
  unfoldable pub new : S → App S
  new state = record { routes = []; nested_routes = []; state = state; fallback = none }

  unfoldable pub is_taken : Text → RoutePattern → Route (Endpoint S) → Bool
  is_taken method pattern route = eqb route.method method && is_equivalent_to route.pattern pattern

  -- `App::try_route`.
  unfoldable pub try_route : App S → Text → Text → Endpoint S → Result (App S) RouteError
  unfolding is_taken
  try_route app method path handler = elim (parse path) [
    | err e ↦ err e
    | ok pattern ↦
        if any (is_taken method pattern) app.routes
        then err already_registered
        else ok (record app {
          routes =
              app.routes
              ++ record {
                method = method;
                pattern = pattern;
                template = path;
                endpoint = handler;
                order = length app.routes;
              }
                ∷ [];
        })
  ]

  -- `App::try_nest`; the outer `none` is the panic of `unreachable!`.
  unfoldable pub try_nest : App S → Text → Service → Option (Result (App S) RouteError)
  try_nest app path service = elim (parse_prefix path) [
    | none ↦ none
    | some (err e) ↦ some (err e)
    | some (ok prefix) ↦ some (
        ok (record app {
          nested_routes =
              app.nested_routes
              ++ record {
                prefix = prefix;
                service = service;
                poisoned = false;
                order = length app.nested_routes;
              }
                ∷ [];
        }))
  ]

  -- `App::fallback`.
  unfoldable pub with_fallback : App S → Endpoint S → App S
  with_fallback app handler = record app { fallback = some handler }
