-- ===== src/Router/Pattern/Fits.antt =====
-- crates/rustee-router/src/pattern.rs: what a pattern matches, as a relation.
use rustee_web_framework.Prelude.{
  ◌≡◌, refl, sym, ap, ◌∙◌, inl, inr, ◌↔◌, Bool, true, false, not, ◌&&◌, Option, none, some, List,
  [], ◌∷◌, ◌++◌, arith, ◌==◌, length, All, append-nil, append_assoc, Bool-cases,
}
use rustee_web_framework.Text.{Text, eqb, eqb_iff, eqb_refl, contains, codes}
use rustee_web_framework.Router.Pattern.{
  Segment, static, parameter, RoutePattern, RouteParams, path_segments, matches, match_segments,
  is_equivalent_to, zip_all,
}
use rustee_web_framework.Router.Pattern.Valid.{IsPart, IsSegment, IsValid}
use rustee_web_framework.Router.Pattern.Render.{
  render_path, path_segments-render_path, contains-render_path,
}

-- A list of segments fits the parts of a path, and binds each parameter to its part, in order.
pub data Fits : List Segment → List Text → RouteParams → Type 0 where
  done : Fits [] [] []
  fixed :
      (w : Text) {segments : List Segment} {parts : List Text} {params : RouteParams}
      → Fits segments parts params
      → Fits (static w ∷ segments) (w ∷ parts) params
  bound :
      (name part : Text) {segments : List Segment} {parts : List Text} {params : RouteParams}
      → Fits segments parts params
      → Fits (parameter name ∷ segments) (part ∷ parts) ((name, part) ∷ params)

match_segments_complete :
    {segments : List Segment} {parts : List Text} {params : RouteParams} (acc : RouteParams)
    → Fits segments parts params
    → match_segments segments parts acc ≡ some (acc ++ params)
unfolding match_segments
match_segments_complete acc done = ap some (sym (append-nil acc))
match_segments_complete acc (fixed w f) = rw (eqb_refl w) (match_segments_complete acc f)
match_segments_complete acc (bound name part {params = params} f) =
    match_segments_complete (acc ++ (name, part) ∷ []) f
    ∙ ap some (append_assoc acc ((name, part) ∷ []) params)

match_segments_sound :
    (segments : List Segment) (parts : List Text) (acc result : RouteParams)
    → match_segments segments parts acc ≡ some result
    → (params : RouteParams) × (result ≡ acc ++ params) × Fits segments parts params
unfolding match_segments
match_segments_sound [] [] acc result e = ([], ground (arith, append-nil acc), done)
match_segments_sound [] (x ∷ parts) acc result e = cc
match_segments_sound (static w ∷ segments) [] acc result e = cc
match_segments_sound (parameter w ∷ segments) [] acc result e = cc
match_segments_sound (static w ∷ segments) (part ∷ parts) acc result e =
    elim (Bool-cases (eqb w part)) [
      | inl same ↦
          let (params, eq, f) = match_segments_sound segments parts acc result (rw same at e) in
          (params, eq, rw (← (eqb_iff w part).0 same) (fixed w f))
      | inr other ↦ cc (rw other at e)
    ]
match_segments_sound (parameter name ∷ segments) (part ∷ parts) acc result e =
    let (params, eq, f) = match_segments_sound segments parts (acc ++ (name, part) ∷ []) result e in
    ((name, part) ∷ params, eq ∙ append_assoc acc ((name, part) ∷ []) params, bound name part f)

plain_path :
    (p : RoutePattern) (path : Text) (params : RouteParams)
    → matches p path ≡ some params
    → (contains (codes "//") path ≡ false)
      × (match_segments p.segments (path_segments path) [] ≡ some params)
unfolding matches
plain_path p path params e = ground arith

-- `RoutePattern::matches` returns parameters exactly when the path has no repeated slash and the
-- segments fit its parts, and those parameters are the bindings, in route order.
pub matches_iff :
    (p : RoutePattern) (path : Text) (params : RouteParams)
    → (matches p path ≡ some params)
      ↔ ((contains (codes "//") path ≡ false) × Fits p.segments (path_segments path) params)
unfolding matches
matches_iff p path params = (
  λ e.
      let (plain, e') = plain_path p path params e in
      let (found, same, f) = match_segments_sound p.segments (path_segments path) [] params e' in
      (plain, rw same f),
  λ (plain, f). rw plain (match_segments_complete [] f),
)

-- Whether the segments fit, with the parameters left out.
abbrev accepts : List Segment → List Text → Bool
accepts [] [] = true
accepts [] (x ∷ parts) = false
accepts (s ∷ segments) [] = false
accepts (static w ∷ segments) (part ∷ parts) = eqb w part && accepts segments parts
accepts (parameter name ∷ segments) (part ∷ parts) = accepts segments parts

abbrev pub is_some {ℓ} : {A : Type ℓ} → Option A → Bool
is_some none = false
is_some (some a) = true

accepts-match_segments :
    (segments : List Segment) (parts : List Text) (acc : RouteParams)
    → is_some (match_segments segments parts acc) ≡ accepts segments parts
unfolding match_segments
accepts-match_segments [] [] acc = refl
accepts-match_segments [] (x ∷ parts) acc = refl
accepts-match_segments (static w ∷ segments) [] acc = refl
accepts-match_segments (parameter w ∷ segments) [] acc = refl
accepts-match_segments (static w ∷ segments) (part ∷ parts) acc =
    ground (arith, accepts-match_segments segments parts acc)
accepts-match_segments (parameter name ∷ segments) (part ∷ parts) acc =
    accepts-match_segments segments parts (acc ++ (name, part) ∷ [])

is_some-matches :
    (p : RoutePattern) (path : Text)
    → is_some (matches p path)
      ≡ (not (contains (codes "//") path) && accepts p.segments (path_segments path))
unfolding matches
is_some-matches p path = ground (arith, accepts-match_segments p.segments (path_segments path) [])

abbrev same_shape : List Segment → List Segment → Bool
same_shape p q = length p == length q && zip_all p q

accepts_of_same_shape :
    (p q : List Segment) (parts : List Text)
    → same_shape p q ≡ true
    → accepts p parts ≡ accepts q parts
accepts_of_same_shape [] [] parts h = refl
accepts_of_same_shape [] (t ∷ q) parts h = ground arith
accepts_of_same_shape (s ∷ p) [] parts h = ground arith
accepts_of_same_shape (static v ∷ p) (static w ∷ q) [] h = refl
accepts_of_same_shape (static v ∷ p) (static w ∷ q) (part ∷ parts) h =
    ground (arith, eqb_iff v w, accepts_of_same_shape p q parts)
accepts_of_same_shape (parameter v ∷ p) (parameter w ∷ q) [] h = refl
accepts_of_same_shape (parameter v ∷ p) (parameter w ∷ q) (part ∷ parts) h =
    ground (arith, accepts_of_same_shape p q parts)
accepts_of_same_shape (static v ∷ p) (parameter w ∷ q) parts h = ground arith
accepts_of_same_shape (parameter v ∷ p) (static w ∷ q) parts h = ground arith

-- Parts that a pattern accepts, with each parameter bound to "x".
abbrev fill : List Segment → List Text
fill [] = []
fill (static w ∷ segments) = w ∷ fill segments
fill (parameter name ∷ segments) = codes "x" ∷ fill segments

fill-IsPart : (segments : List Segment) → All IsSegment segments → All IsPart (fill segments)
fill-IsPart [] h = tt
fill-IsPart (static w ∷ segments) (s, h) = (s.0, fill-IsPart segments h)
fill-IsPart (parameter name ∷ segments) (s, h) = ((refl, (refl, tt)), fill-IsPart segments h)

accepts-fill : (segments : List Segment) → accepts segments (fill segments) ≡ true
accepts-fill [] = refl
accepts-fill (static w ∷ segments) = rw (eqb_refl w) (accepts-fill segments)
accepts-fill (parameter name ∷ segments) = accepts-fill segments

-- Two lists of segments accept the same parts.
abbrev Agree : List Segment → List Segment → Type 0
Agree p q = (parts : List Text) → All IsPart parts → accepts p parts ≡ accepts q parts

eqb_longer : (w : Text) → eqb w (b'x' ∷ w) ≡ false
eqb_longer w = elim (Bool-cases (eqb w (b'x' ∷ w))) [
  | inl same ↦ absurd (omega (arith, ap (λ (t : Text). length t) ((eqb_iff w (b'x' ∷ w)).0 same)))
  | inr other ↦ other
]

Agree_at :
    (p q : RoutePattern) (parts : List Text)
    → All IsPart parts
    → is_some (matches p (render_path parts)) ≡ is_some (matches q (render_path parts))
    → accepts p.segments parts ≡ accepts q.segments parts
Agree_at p q parts fine e =
    rw
      (
        is_some-matches p (render_path parts),
        is_some-matches q (render_path parts),
        contains-render_path parts fine,
        path_segments-render_path parts fine,
      )
      at e

longer-IsPart : (w : Text) → IsPart w → IsPart (b'x' ∷ w)
longer-IsPart w (some_char, plain) = (refl, (refl, plain))

same_heads :
    (v w : Text) (p q : List Segment)
    → accepts p (fill p) ≡ true
    → accepts (static v ∷ p) (v ∷ fill p) ≡ accepts (static w ∷ q) (v ∷ fill p)
    → v ≡ w
same_heads v w p q a e = ground (arith, eqb_refl v, eqb_iff w v)

same_tails :
    (v w : Text) (parts : List Text) (p q : List Segment)
    → v ≡ w
    → accepts (static v ∷ p) (v ∷ parts) ≡ accepts (static w ∷ q) (v ∷ parts)
    → accepts p parts ≡ accepts q parts
same_tails v w parts p q same e = ground (arith, eqb_refl v, eqb_iff w v)

same_shape_of_Agree :
    (p q : List Segment) → All IsSegment p → All IsSegment q → Agree p q → same_shape p q ≡ true
same_shape_of_Agree [] [] h k agree = refl
same_shape_of_Agree [] (t ∷ q) h k agree = cc (agree [] tt)
same_shape_of_Agree (s ∷ p) [] h k agree = cc (agree [] tt)
same_shape_of_Agree (static v ∷ p) (static w ∷ q) (s, h) (t, k) agree =
    let same : v ≡ w =
      same_heads v w p q (accepts-fill p) (agree (v ∷ fill p) (s.0, fill-IsPart p h)) in
    let tails : same_shape p q ≡ true =
      same_shape_of_Agree p q h k
        (λ parts fine. same_tails v w parts p q same (agree (v ∷ parts) (s.0, fine))) in
    ground (arith, (eqb_iff v w).1 same)
same_shape_of_Agree (parameter v ∷ p) (parameter w ∷ q) (s, h) (t, k) agree =
    let tails =
      same_shape_of_Agree p q h k
        (λ parts fine. agree (codes "x" ∷ parts) ((refl, (refl, tt)), fine)) in
    ground (arith, tails)
same_shape_of_Agree (static v ∷ p) (parameter w ∷ q) (s, h) (t, k) agree = cc (
  agree ((b'x' ∷ v) ∷ fill q) (longer-IsPart v s.0, fill-IsPart q k),
  eqb_longer v,
  accepts-fill q,
)
same_shape_of_Agree (parameter v ∷ p) (static w ∷ q) (s, h) (t, k) agree = cc (
  agree ((b'x' ∷ w) ∷ fill p) (longer-IsPart w t.0, fill-IsPart p h),
  eqb_longer w,
  accepts-fill p,
)

-- For patterns that `parse` can return, `is_equivalent_to` holds exactly when the two match the
-- same paths.
pub is_equivalent_to_iff :
    (p q : RoutePattern)
    → IsValid p
    → IsValid q
    → (is_equivalent_to p q ≡ true)
      ↔ ((path : Text) → is_some (matches p path) ≡ is_some (matches q path))
unfolding is_equivalent_to
is_equivalent_to_iff p q h k = (
  λ same path.
      rw (is_some-matches p path, is_some-matches q path)
        (ap (λ b. not (contains (codes "//") path) && b)
          (accepts_of_same_shape p.segments q.segments (path_segments path) same)),
  λ agree.
      same_shape_of_Agree p.segments q.segments h.segments k.segments
        (λ parts fine. Agree_at p q parts fine (agree (render_path parts))),
)
