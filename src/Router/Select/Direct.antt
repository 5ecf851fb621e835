-- ===== src/Router/Select/Direct.antt =====
-- crates/rustee-router/src/dispatch.rs: what `select_direct_route` selects.
use rustee_web_framework.Prelude.{
  ◌≡◌, refl, ◌↔◌, ◌⊎◌, inl, inr, ◌≤◌, ◌<◌, Bool, true, false, not, none, some, List, [], ◌∷◌, ◌++◌,
  if◌then◌else◌, is_empty, All, Any, All-append, Any-append, All-map_lem, any, arith, append_assoc,
  append-nil, Bool-cases, Option-cases, ap,
}
use rustee_web_framework.Text.{Text, eqb, eqb_iff}
use rustee_web_framework.Text.Ordered.{insert, any-insert, insert-Ascending, Ascending}
use rustee_web_framework.Router.Pattern.{RouteParams, matches}
use rustee_web_framework.Router.Pattern.Fits.{is_some}
use rustee_web_framework.Router.Table.{Route}
use rustee_web_framework.Router.Select.{
  DirectRouteSelection, matched, method_not_allowed, no_match, replaces, select_from,
  select_direct_route, Candidate,
}

any-insert_iff :
    (m x : Text) (ys : List Text)
    → (any (eqb m) (insert x ys) ≡ true) ↔ ((m ≡ x) ⊎ (any (eqb m) ys ≡ true))
any-insert_iff m x ys = rw (any-insert m x ys) (ground (arith, eqb_iff m x))

module _ {E : Type 0} (path method : Text) where
  -- The pattern of a route matches the path.
  abbrev pub fits : Route E → Bool
  fits route = is_some (matches route.pattern path)

  abbrev pub IsEligible : Route E → Type 0
  IsEligible route = (fits route ≡ true) × (eqb route.method method ≡ true)

  -- A route does not come before another: it has fewer static segments, or as many and was not
  -- registered earlier.
  abbrev pub NotBetter : Route E → Route E → Type 0
  NotBetter route best =
      (route.pattern.static_segments < best.pattern.static_segments)
      ⊎ ((route.pattern.static_segments ≡ best.pattern.static_segments)
          × (best.order ≤ route.order))

  abbrev pub IsBest : List (Route E) → Route E → RouteParams → Type 0
  IsBest routes best params =
      Any (λ route. route ≡ best) routes
      × (matches best.pattern path ≡ some params)
      × (best.method ≡ method)
      × All (λ route. IsEligible route → NotBetter route best) routes

  -- The loop's state after the routes `seen`.
  abbrev IsCandidate : List (Route E) → Candidate E → Type 0
  IsCandidate seen none = All (λ route. ¬ IsEligible route) seen
  IsCandidate seen (some (best, params)) = IsBest seen best params

  -- The methods of the routes whose pattern matches.
  abbrev pub Allows : List (Route E) → Text → Type 0
  Allows routes m = Any (λ route. (fits route ≡ true) × (m ≡ route.method)) routes

  record IsState (seen : List (Route E)) (allowed : List Text) (candidate : Candidate E)
      : Type 0 where
    best : IsCandidate seen candidate
    sound : (m : Text) → any (eqb m) allowed ≡ true → Allows seen m
    complete : (m : Text) → Allows seen m → any (eqb m) allowed ≡ true
    ascending : Ascending allowed

  -- A route gives way to the candidate.
  abbrev Yields : Route E → Candidate E → Type 0
  Yields route none = ¬ IsEligible route
  Yields route (some (best, params)) = IsEligible route → NotBetter route best

  keep_candidate :
      (seen : List (Route E)) (candidate : Candidate E) (route : Route E)
      → IsCandidate seen candidate
      → Yields route candidate
      → IsCandidate (seen ++ route ∷ []) candidate
  keep_candidate seen none route h y = All-append _ seen (route ∷ []) h (y, tt)
  keep_candidate seen (some (best, params)) route (listed, fit, same, all_worse) y = (
    (Any-append _ seen (route ∷ [])).1 (inl listed),
    fit,
    same,
    All-append _ seen (route ∷ []) all_worse (y, tt),
  )

  NotBetter-refl : (route : Route E) → NotBetter route route
  NotBetter-refl route = inr (refl, omega arith)

  NotBetter-trans :
      (route best : Route E) (params : RouteParams) (other : Route E)
      → replaces route (some (best, params)) ≡ true
      → NotBetter other best
      → NotBetter other route
  unfolding replaces
  NotBetter-trans route best params other r w = ground arith

  take_candidate :
      (seen : List (Route E)) (candidate : Candidate E) (route : Route E) (params : RouteParams)
      → IsCandidate seen candidate
      → matches route.pattern path ≡ some params
      → route.method ≡ method
      → replaces route candidate ≡ true
      → IsBest (seen ++ route ∷ []) route params
  take_candidate seen none route params h fit same r = (
    (Any-append _ seen (route ∷ [])).1 (inr (inl refl)),
    fit,
    same,
    All-append _ seen (route ∷ [])
        (All-map_lem _ _ seen (λ other no_one fits. absurd (no_one fits)) h)
        ((λ _. NotBetter-refl route), tt),
  )
  take_candidate seen (some (best, found)) route params (listed, fit', same', worse) fit same r = (
    (Any-append _ seen (route ∷ [])).1 (inr (inl refl)),
    fit,
    same,
    All-append _ seen (route ∷ [])
        (All-map_lem _ _ seen (λ other w fits. NotBetter-trans route best found other r (w fits))
          worse)
        ((λ _. NotBetter-refl route), tt),
  )

  Yields-of_loss :
      (route : Route E) (candidate : Candidate E)
      → replaces route candidate ≡ false
      → Yields route candidate
  unfolding replaces
  Yields-of_loss route none r = cc
  Yields-of_loss route (some (best, params)) r = λ fit. ground arith

  Yields-of_refusal :
      (route : Route E) (candidate : Candidate E) → ¬ IsEligible route → Yields route candidate
  Yields-of_refusal route none r = r
  Yields-of_refusal route (some (best, params)) r = λ fit. absurd (r fit)

  -- A route that does not match changes nothing.
  skip :
      (seen : List (Route E)) (allowed : List Text) (candidate : Candidate E) (route : Route E)
      → IsState seen allowed candidate
      → matches route.pattern path ≡ none
      → IsState (seen ++ route ∷ []) allowed candidate
  skip seen allowed candidate route h missed = record {
    best =
        keep_candidate seen candidate route h.best
          (Yields-of_refusal route candidate (λ fit. cc (fit.0, ap is_some missed)));
    sound = λ m e. (Any-append _ seen (route ∷ [])).1 (inl (h.sound m e));
    complete = λ m e. elim ((Any-append _ seen (route ∷ [])).0 e) [
      | inl old ↦ h.complete m old
      | inr (inl (fit, same)) ↦ cc (ap is_some missed)
      | inr (inr absent) ↦ absurd absent
    ];
    ascending = h.ascending;
  }

  abbrev next : Route E → RouteParams → Candidate E → Candidate E
  next route params candidate =
      if not (eqb route.method method)
      then candidate
      else if replaces route candidate
      then some (route, params)
      else candidate

  next-IsCandidate :
      (seen : List (Route E)) (candidate : Candidate E) (route : Route E) (params : RouteParams)
      → IsCandidate seen candidate
      → matches route.pattern path ≡ some params
      → IsCandidate (seen ++ route ∷ []) (next route params candidate)
  next-IsCandidate seen candidate route params h fit = elim (Bool-cases (eqb route.method method)) [
    | inl same ↦ elim (Bool-cases (replaces route candidate)) [
      | inl wins ↦
          rw (same, wins)
            (take_candidate seen candidate route params h fit ((eqb_iff _ _).0 same) wins)
      | inr loses ↦
          rw (same, loses)
            (keep_candidate seen candidate route h (Yields-of_loss route candidate loses))
    ]
    | inr other ↦ rw other (
        keep_candidate seen candidate route h
          (Yields-of_refusal route candidate (λ e. cc (e.1, other))))
  ]

  meet :
      (seen : List (Route E)) (allowed : List Text) (candidate : Candidate E) (route : Route E)
      (params : RouteParams)
      → IsState seen allowed candidate
      → matches route.pattern path ≡ some params
      → IsState (seen ++ route ∷ []) (insert route.method allowed) (next route params candidate)
  meet seen allowed candidate route params h fit = record {
    best = next-IsCandidate seen candidate route params h.best fit;
    sound = λ m e.
        (Any-append _ seen (route ∷ [])).1 (elim ((any-insert_iff m route.method allowed).0 e) [
          | inl same ↦ inr (inl (ap is_some fit, same))
          | inr old ↦ inl (h.sound m old)
        ]);
    complete = λ m e.
        (any-insert_iff m route.method allowed).1 (elim ((Any-append _ seen (route ∷ [])).0 e) [
          | inl old ↦ inr (h.complete m old)
          | inr (inl (_, same)) ↦ inl same
          | inr (inr absent) ↦ absurd absent
        ]);
    ascending = insert-Ascending route.method allowed h.ascending;
  }

  -- What each outcome of the selection says of the routes.
  abbrev pub Describes : List (Route E) → DirectRouteSelection E → Type 0
  Describes routes (matched best params) = IsBest routes best params
  Describes routes (method_not_allowed allowed) =
      All (λ route. ¬ IsEligible route) routes
      × ((m : Text) → Allows routes m ↔ (any (eqb m) allowed ≡ true))
      × Ascending allowed
      × (is_empty allowed ≡ false)
  Describes routes no_match = All (λ route. fits route ≡ false) routes

  none_fits :
      (routes : List (Route E))
      → ((m : Text) → ¬ Allows routes m)
      → All (λ route. fits route ≡ false) routes
  none_fits [] h = tt
  none_fits (route ∷ routes) h = (
    elim (Bool-cases (fits route)) [
      | inl fit ↦ absurd (h route.method (inl (fit, refl)))
      | inr misses ↦ misses
    ],
    none_fits routes (λ m e. h m (inr e)),
  )

  finish :
      (seen : List (Route E)) (allowed : List Text) (candidate : Candidate E)
      → IsState seen allowed candidate
      → Describes seen (select_from [] path method allowed candidate)
  unfolding select_from
  finish seen allowed (some (best, params)) h = h.best
  finish seen [] none h = none_fits seen (λ m e. cc (h.complete m e))
  finish seen (x ∷ allowed) none h = (h.best, λ m. (h.complete m, h.sound m), h.ascending, refl)

  select_from-Describes :
      (routes seen : List (Route E)) (allowed : List Text) (candidate : Candidate E)
      → IsState seen allowed candidate
      → Describes (seen ++ routes) (select_from routes path method allowed candidate)
  unfolding select_from
  select_from-Describes [] seen allowed candidate h =
      rw (append-nil seen) (finish seen allowed candidate h)
  select_from-Describes (route ∷ routes) seen allowed candidate h =
      rw (← append_assoc seen (route ∷ []) routes)
        (elim (Option-cases (matches route.pattern path)) [
          | inl missed ↦
              rw (missed, select_from)
                (select_from-Describes routes (seen ++ route ∷ []) allowed candidate
                  (skip seen allowed candidate route h missed))
          | inr (params, fit) ↦
              rw (fit, select_from)
                (select_from-Describes routes (seen ++ route ∷ []) (insert route.method allowed)
                  (next route params candidate) (meet seen allowed candidate route params h fit))
        ])

-- A match is a listed route for the method whose pattern matches, and no other such route has more
-- static segments, or as many and an earlier registration. A method mismatch means that some
-- pattern matches, none for the method, and its methods are exactly those of the matching routes,
-- in ascending order. No match means that no pattern matches.
pub select_direct_route-Describes :
    {E : Type 0} (routes : List (Route E)) (path method : Text)
    → Describes path method routes (select_direct_route routes path method)
unfolding select_direct_route
select_direct_route-Describes routes path method =
    select_from-Describes path method routes [] [] none
      (record { best = tt; sound = λ m e. cc; complete = λ m e. absurd e; ascending = tt })
