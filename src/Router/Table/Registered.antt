-- ===== src/Router/Table/Registered.antt =====
-- crates/rustee-router/src/app.rs: registration in the table of routes.
use rustee_web_framework.Prelude.{
  ℕ, suc, ◌+◌, ◌≡◌, ◌↔◌, ◌⊎◌, inl, inr, Bool, true, false, ◌&&◌, ◌||◌, List, [], ◌∷◌, ◌++◌, any,
  length, All, All-append, arith, Bool-cases, Any, subst,
}
use rustee_web_framework.Prelude.Result.{ok, err, Result-cases}
use rustee_web_framework.Text.{Text, eqb, eqb_iff}
use rustee_web_framework.Router.Pattern.{
  RoutePattern, RouteError, already_registered, parse, is_equivalent_to, matches,
}
use rustee_web_framework.Router.Pattern.Valid.{IsValid, parse-IsValid}
use rustee_web_framework.Router.Pattern.Fits.{is_some, is_equivalent_to_iff}
use rustee_web_framework.Router.Table.{Route, App, Endpoint, is_taken, try_route}

module _ {E : Type 0} where
  -- The routes are numbered in order from `n`.
  abbrev pub Numbered : ℕ → List (Route E) → Type 0
  Numbered n [] = Unit
  Numbered n (route ∷ routes) = (route.order ≡ n) × Numbered (suc n) routes

  -- Two routes for one method, and equivalent patterns.
  abbrev pub clash : Route E → Route E → Bool
  clash left right = eqb left.method right.method && is_equivalent_to left.pattern right.pattern

  abbrev pub Unambiguous : List (Route E) → Type 0
  Unambiguous [] = Unit
  Unambiguous (route ∷ routes) =
      All (λ other. clash route other ≡ false) routes × Unambiguous routes

  pub record IsTable (routes : List (Route E)) : Type 0 where
    pub valid : All (λ route. IsValid route.pattern) routes
    pub numbered : Numbered 0 routes
    pub unambiguous : Unambiguous routes

  Numbered-append :
      (n : ℕ) (routes : List (Route E)) (route : Route E)
      → Numbered n routes
      → route.order ≡ n + length routes
      → Numbered n (routes ++ route ∷ [])
  Numbered-append n [] route h o = (omega arith, tt)
  Numbered-append n (r ∷ routes) route (p, h) o =
      (p, Numbered-append (suc n) routes route h (omega arith))

  Unambiguous-append :
      (routes : List (Route E)) (route : Route E)
      → Unambiguous routes
      → All (λ other. clash other route ≡ false) routes
      → Unambiguous (routes ++ route ∷ [])
  Unambiguous-append [] route h k = (tt, tt)
  Unambiguous-append (r ∷ routes) route (p, h) (q, k) =
      (All-append _ routes (route ∷ []) p (q, tt), Unambiguous-append routes route h k)

taken_head :
    (m q later : Bool) → (m && q || later) ≡ true → ((m ≡ true) × (q ≡ true)) ⊎ (later ≡ true)
taken_head m q later e = ground arith

module _ {S : Type 0} where
  none_taken :
      (routes : List (Route (Endpoint S))) (route : Route (Endpoint S))
      → any (is_taken route.method route.pattern) routes ≡ false
      → All (λ other. clash other route ≡ false) routes
  unfolding is_taken
  none_taken [] route h = tt
  none_taken (r ∷ routes) route h = ground (arith, none_taken routes route)

  -- The application after a registration that is not refused.
  abbrev pub added : App S → Text → Text → Endpoint S → RoutePattern → App S
  added app method path handler pattern = record app {
    routes =
        app.routes
        ++ record {
          method = method;
          pattern = pattern;
          template = path;
          endpoint = handler;
          order = length app.routes;
        }
          ∷ [];
  }

  try_route_free :
      (app : App S) (method path : Text) (handler : Endpoint S) (pattern : RoutePattern)
      → parse path ≡ ok pattern
      → any (is_taken method pattern) app.routes ≡ false
      → try_route app method path handler ≡ ok (added app method path handler pattern)
  unfolding try_route
  try_route_free app method path handler pattern parsed free = rw (parsed, try_route) (rw free)

  try_route_taken :
      (app : App S) (method path : Text) (handler : Endpoint S) (pattern : RoutePattern)
      → parse path ≡ ok pattern
      → any (is_taken method pattern) app.routes ≡ true
      → try_route app method path handler ≡ err already_registered
  unfolding try_route
  try_route_taken app method path handler pattern parsed taken = rw (parsed, try_route) (rw taken)

  try_route_invalid :
      (app : App S) (method path : Text) (handler : Endpoint S) (e : RouteError)
      → parse path ≡ err e
      → try_route app method path handler ≡ err e
  unfolding try_route
  try_route_invalid app method path handler e failed = rw (failed, try_route)

  added-IsTable :
      (app : App S) (method path : Text) (handler : Endpoint S) (pattern : RoutePattern)
      → IsTable app.routes
      → parse path ≡ ok pattern
      → any (is_taken method pattern) app.routes ≡ false
      → IsTable (added app method path handler pattern).routes
  added-IsTable app method path handler pattern h parsed free =
      let route : Route (Endpoint S) = record {
        method = method;
        pattern = pattern;
        template = path;
        endpoint = handler;
        order = length app.routes;
      } in
      record {
        valid =
            All-append _ app.routes (route ∷ []) h.valid (parse-IsValid path pattern parsed, tt);
        numbered = Numbered-append 0 app.routes route h.numbered (omega arith);
        unambiguous =
            Unambiguous-append app.routes route h.unambiguous (none_taken app.routes route free);
      }

  -- `App::try_route` keeps the table: every pattern is valid, the routes are numbered in the order
  -- of their registration, and no two routes for one method have equivalent patterns.
  pub try_route-IsTable :
      (app : App S) (method path : Text) (handler : Endpoint S) (app' : App S)
      → IsTable app.routes
      → try_route app method path handler ≡ ok app'
      → IsTable app'.routes
  try_route-IsTable app method path handler app' h e = elim (Result-cases (parse path)) [
    | inr (bad, failed) ↦ cc (try_route_invalid app method path handler bad failed)
    | inl (pattern, parsed) ↦ elim (Bool-cases (any (is_taken method pattern) app.routes)) [
      | inl taken ↦ cc (try_route_taken app method path handler pattern parsed taken)
      | inr free ↦
          let same : added app method path handler pattern ≡ app' =
            cc (try_route_free app method path handler pattern parsed free) in
          subst (λ (a : App S). IsTable a.routes) same
            (added-IsTable app method path handler pattern h parsed free)
    ]
  ]

  -- A route of the table has the method, and its pattern matches the same paths.
  abbrev pub Occupied : Text → RoutePattern → List (Route (Endpoint S)) → Type 0
  Occupied method pattern routes =
      Any
        (λ route.
          (route.method ≡ method)
          × ((path : Text) → is_some (matches route.pattern path) ≡ is_some (matches pattern path)))
        routes

  taken-Occupied :
      (method : Text) (pattern : RoutePattern) (routes : List (Route (Endpoint S)))
      → IsValid pattern
      → All (λ route. IsValid route.pattern) routes
      → (any (is_taken method pattern) routes ≡ true) ↔ Occupied method pattern routes
  unfolding is_taken
  taken-Occupied method pattern [] h k = (λ e. cc, λ e. absurd e)
  taken-Occupied method pattern (route ∷ routes) h (k, ks) =
      let (same_to, same_from) = is_equivalent_to_iff route.pattern pattern k h in
      let (to, from) = taken-Occupied method pattern routes h ks in
      (
        λ e.
            elim (taken_head (eqb route.method method) (is_equivalent_to route.pattern pattern)
              (any (is_taken method pattern) routes) e) [
                | inl (m, q) ↦ inl ((eqb_iff _ _).0 m, same_to q)
                | inr later ↦ inr (to later)
              ],
        elim [
          | inl (m, q) ↦ ground (arith, (eqb_iff route.method method).1 m, same_from q)
          | inr later ↦ ground (arith, from later)
        ],
      )

  -- For a valid path and a table that is as registration leaves it (all its patterns valid, its
  -- routes numbered in order, no two routes for one method with equivalent patterns),
  -- `App::try_route` gives the error of a registered route exactly when a route for the same method
  -- stands there that matches the same set of request paths. It succeeds exactly when there is
  -- none, and then the new route stands behind all others, with the next number.
  pub try_route_iff :
      (app : App S) (method path : Text) (handler : Endpoint S) (pattern : RoutePattern)
      → IsTable app.routes
      → parse path ≡ ok pattern
      → ((try_route app method path handler ≡ err already_registered)
          ↔ Occupied method pattern app.routes)
        × ((try_route app method path handler ≡ ok (added app method path handler pattern))
            ↔ (¬ Occupied method pattern app.routes))
  try_route_iff app method path handler pattern h parsed =
      let (to, from) =
        taken-Occupied method pattern app.routes (parse-IsValid path pattern parsed) h.valid in
      elim (Bool-cases (any (is_taken method pattern) app.routes)) [
        | inl taken ↦
            let refuses = try_route_taken app method path handler pattern parsed taken in
            ((λ e. to taken, λ e. refuses), (λ e k. cc, λ k. absurd (k (to taken))))
        | inr free ↦
            let accepts = try_route_free app method path handler pattern parsed free in
            let apart : (¬ Occupied method pattern app.routes) = λ k. cc (from k) in
            ((λ e. cc, λ k. absurd (apart k)), (λ e. apart, λ k. accepts))
      ]
