-- ===== src/Router/Tests.antt =====
-- The router at concrete routes and requests.
use rustee_web_framework.Text.Ordered.{insert}
use rustee_web_framework.Text.Trim.{trim_matches}
use rustee_web_framework.Prelude.{◌≡◌, refl, ◌↔◌, true, false, none, some, [], ◌∷◌, ◌++◌}
use rustee_web_framework.Prelude.Result.{ok, err}
use rustee_web_framework.Text.{strip_prefix, Text, codes, contains, starts_with}
use rustee_web_framework.Text.Split.{join, split}
use rustee_web_framework.Router.Pattern.{
  match_segments, parse_segments, RouteError, already_registered, static, parameter, RoutePattern,
  NestedPrefix, parse, path_segments, matches, is_equivalent_to, parse_prefix, strip,
}
use rustee_web_framework.Router.Pattern.Valid.{IsValid, parse-IsValid}
use rustee_web_framework.Router.Pattern.Render.{render_path, render, parse-render}
use rustee_web_framework.Router.Pattern.Fits.{Fits, is_some, matches_iff, is_equivalent_to_iff}
use rustee_web_framework.Router.Pattern.Prefix.{IsPrefixOf, path_segments-strip}
use rustee_web_framework.Router.Table.{
  Request, Http, Endpoint, Route, NestedRoute, App, matched, new, try_route, error_response,
}
use rustee_web_framework.Router.Table.Registered.{
  IsTable, Occupied, added, try_route-IsTable, try_route_iff,
}
use rustee_web_framework.Router.Select.{
  DirectRouteSelection, select_direct_route, select_nested_route,
}
use rustee_web_framework.Router.Select.Direct.{Describes, fits, select_direct_route-Describes}
use rustee_web_framework.Router.Select.Nested.{IsClosest, select_nested_route-IsClosest}
use rustee_web_framework.Router.Dispatch.{dispatch}
use rustee_web_framework.Router.Dispatch.Outcome.{dispatch_nested_template}

abbrev user : RoutePattern
user = record {
  segments = static (codes "users") ∷ parameter (codes "id") ∷ [];
  static_segments = 1;
}

abbrev user_me : RoutePattern
user_me = record {
  segments = static (codes "users") ∷ static (codes "me") ∷ [];
  static_segments = 2;
}

abbrev account : RoutePattern
account = record {
  segments = static (codes "users") ∷ parameter (codes "name") ∷ [];
  static_segments = 1;
}

parsed_user : parse (codes "/users/:id") ≡ ok user
unfolding parse starts_with contains parse_segments path_segments split trim_matches strip_prefix
parsed_user = refl

parsed_me : parse (codes "/users/me") ≡ ok user_me
unfolding parse starts_with contains parse_segments path_segments split trim_matches strip_prefix
parsed_me = refl

parsed_account : parse (codes "/users/:name") ≡ ok account
unfolding parse starts_with contains parse_segments path_segments split trim_matches strip_prefix
parsed_account = refl

repeated_name : parse (codes "/a/:x/b/:x") ≡ err RouteError.duplicate_parameter_name
unfolding parse starts_with contains parse_segments path_segments split trim_matches strip_prefix
repeated_name = refl

user-IsValid : IsValid user
user-IsValid = parse-IsValid (codes "/users/:id") user parsed_user

account-IsValid : IsValid account
account-IsValid = parse-IsValid (codes "/users/:name") account parsed_account

parse-IsValid_example : IsValid user
parse-IsValid_example = parse-IsValid (codes "/users/:id") user parsed_user

parse-render_example : parse (render user) ≡ ok user
parse-render_example = parse-render user user-IsValid

matches_iff_example : (matches user (codes "/users/7") ≡ some ((codes "id", codes "7") ∷ [])) ↔ (
    (contains (codes "//") (codes "/users/7") ≡ false)
    × Fits user.segments (path_segments (codes "/users/7")) ((codes "id", codes "7") ∷ []))
matches_iff_example = matches_iff user (codes "/users/7") ((codes "id", codes "7") ∷ [])

is_equivalent_to_iff_example :
    (is_equivalent_to user account ≡ true)
    ↔ ((path : Text) → is_some (matches user path) ≡ is_some (matches account path))
is_equivalent_to_iff_example = is_equivalent_to_iff user account user-IsValid account-IsValid

abbrev api : NestedPrefix
api = record { value = codes "/api"; segment_count = 1 }

parsed_api : parse_prefix (codes "/api") ≡ some (ok api)
unfolding parse_prefix parse starts_with contains parse_segments path_segments split trim_matches
    strip_prefix join
parsed_api = refl

stripped : strip api (codes "/api/users/me") ≡ some (codes "/users/me")
unfolding strip strip_prefix starts_with
stripped = refl

not_a_boundary : strip api (codes "/apiary") ≡ none
unfolding strip strip_prefix starts_with
not_a_boundary = refl

api-IsPrefixOf : IsPrefixOf api (codes "api" ∷ [])
unfolding render_path
api-IsPrefixOf = record {
  fine = ((refl, (refl, (refl, (refl, tt)))), tt);
  some_part = refl;
  value = refl;
  count = refl;
}

path_segments-strip_example :
    path_segments (codes "/api/users/me") ≡ (codes "api" ∷ []) ++ path_segments (codes "/users/me")
path_segments-strip_example =
    path_segments-strip api (codes "api" ∷ []) (codes "/api/users/me") (codes "/users/me")
      api-IsPrefixOf stripped

-- A handler that answers with its template.
abbrev echo : Endpoint (Unit {0})
echo request params state = error_response 200 (codes "ok")

abbrev user_route : Route (Endpoint (Unit {0}))
user_route = record {
  method = codes "GET";
  pattern = user;
  template = codes "/users/:id";
  endpoint = echo;
  order = 0;
}

abbrev me_route : Route (Endpoint (Unit {0}))
me_route = record {
  method = codes "GET";
  pattern = user_me;
  template = codes "/users/me";
  endpoint = echo;
  order = 1;
}

abbrev users : App (Unit {0})
users = record {
  routes = user_route ∷ me_route ∷ [];
  nested_routes = [];
  state = tt;
  fallback = none;
}

registered_one :
    try_route (new tt) (codes "GET") (codes "/users/:id") echo
    ≡ ok (record users { routes = user_route ∷ [] })
unfolding try_route new parse starts_with contains parse_segments path_segments split trim_matches
    strip_prefix
registered_one = refl

empty-IsTable : IsTable {E = Endpoint (Unit {0})} []
empty-IsTable = record { valid = tt; numbered = tt; unambiguous = tt }

try_route-IsTable_example : IsTable (record users { routes = user_route ∷ [] }).routes
unfolding new
try_route-IsTable_example =
    try_route-IsTable (new tt) (codes "GET") (codes "/users/:id") echo
      (record users { routes = user_route ∷ [] }) empty-IsTable registered_one

one-IsTable : IsTable (user_route ∷ [])
one-IsTable = record { valid = (user-IsValid, tt); numbered = (refl, tt); unambiguous = (tt, tt) }

try_route_iff_example :
    ((try_route
          (record users { routes = user_route ∷ [] })
          (codes "GET")
          (codes "/users/:name")
          echo
        ≡ err already_registered)
      ↔ Occupied (codes "GET") account (user_route ∷ []))
    × ((try_route
            (record users { routes = user_route ∷ [] })
            (codes "GET")
            (codes "/users/:name")
            echo
          ≡ ok (
              added
                (record users { routes = user_route ∷ [] })
                (codes "GET")
                (codes "/users/:name")
                echo
                account))
        ↔ (¬ Occupied (codes "GET") account (user_route ∷ [])))
try_route_iff_example =
    try_route_iff (record users { routes = user_route ∷ [] }) (codes "GET") (codes "/users/:name")
      echo account one-IsTable parsed_account

more_specific :
    select_direct_route users.routes (codes "/users/me") (codes "GET")
    ≡ DirectRouteSelection.matched me_route []
unfolding select_direct_route matches contains match_segments path_segments split trim_matches
more_specific = refl

other_method :
    select_direct_route users.routes (codes "/users/me") (codes "POST")
    ≡ DirectRouteSelection.method_not_allowed (codes "GET" ∷ [])
unfolding select_direct_route matches contains match_segments path_segments split trim_matches
    insert
other_method = refl

select_direct_route-Describes_example :
    Describes
      (codes "/users/me")
      (codes "GET")
      users.routes
      (select_direct_route users.routes (codes "/users/me") (codes "GET"))
select_direct_route-Describes_example =
    select_direct_route-Describes users.routes (codes "/users/me") (codes "GET")

-- What the `http` crate does with the paths of these tests.
abbrev http : Http
http = record {
  header_value = λ value. some value;
  path_and_query = λ value. some (value, none);
  from_parts = λ origin target. true;
}

abbrev nested : NestedRoute
nested = record { prefix = api; service = dispatch http users; poisoned = false; order = 0 }

abbrev site : App (Unit {0})
site = record { routes = []; nested_routes = nested ∷ []; state = tt; fallback = none }

abbrev get_me : Request
get_me = record {
  method = codes "GET";
  origin = [];
  path = codes "/api/users/me";
  query = none;
  nested_prefix = none;
  template = none;
  body = [];
}

select_nested_route-IsClosest_example :
    IsClosest
      (codes "/api/users/me")
      (nested ∷ [])
      (select_nested_route (nested ∷ []) (codes "/api/users/me"))
select_nested_route-IsClosest_example =
    select_nested_route-IsClosest (nested ∷ []) (codes "/api/users/me")

no_direct :
    select_direct_route site.routes get_me.path get_me.method ≡ DirectRouteSelection.no_match
unfolding select_direct_route
no_direct = refl

selected : select_nested_route site.nested_routes get_me.path ≡ some nested
unfolding select_nested_route strip strip_prefix starts_with
selected = refl

child_route :
    select_direct_route users.routes (codes "/users/me") get_me.method
    ≡ DirectRouteSelection.matched me_route []
unfolding select_direct_route matches contains match_segments path_segments split trim_matches
child_route = refl

-- The request carries a prefix already.
abbrev get_outer : Request
get_outer = record get_me { nested_prefix = some (codes "/v1") }

dispatch_nested_template_example :
    ((dispatch http site get_outer).template ≡ some (codes "/v1/api/users/me"))
    × ((dispatch http site get_outer).classification ≡ some (matched (codes "/v1/api/users/me")))
dispatch_nested_template_example =
    dispatch_nested_template http site users get_outer nested (codes "api" ∷ []) (codes "/users/me")
      me_route [] no_direct selected api-IsPrefixOf refl refl stripped refl refl child_route

me_fits : fits (codes "/users/me") (codes "POST") user_route ≡ true
unfolding matches contains match_segments path_segments split trim_matches
me_fits = refl
