-- ===== src/Router/Pattern/Prefix.antt =====
-- crates/rustee-router/src/pattern.rs: what `NestedPrefix::parse` returns and what `strip` removes.
use rustee_web_framework.Prelude.{
  ◌≡◌, refl, sym, ap, ◌∙◌, ◌⊎◌, inl, inr, ◌↔◌, true, false, not, Option, none, some, List, [], ◌∷◌,
  ◌++◌, arith, if◌then◌else◌, keep, all, is_empty, length, All, append-nil, Bool-cases,
  Option-cases, map, suc, keep-append,
}
use rustee_web_framework.Prelude.Result.{Result, ok, err, Result-cases}
use rustee_web_framework.Text.{Text, strip_prefix, strip_prefix_iff, starts_with, codes}
use rustee_web_framework.Text.Split.{nonempty, split, split_first, keep-split-trim_matches, join}
use rustee_web_framework.Router.Pattern.{
  Segment, static, parameter, RoutePattern, RouteError, parse, path_segments, is_static,
  NestedPrefix, strip, parse_prefix, static_texts, empty_prefix, parameter_prefix,
}
use rustee_web_framework.Router.Pattern.Valid.{
  IsPart, IsSegment, IsValid, segment_text, parse-IsValid, parse-texts,
}
use rustee_web_framework.Router.Pattern.Render.{render_path, slashed, path_segments-render_path}

static_texts_total :
    (segments : List Segment)
    → all is_static segments ≡ true
    → static_texts segments ≡ some (map segment_text segments)
static_texts_total [] h = refl
static_texts_total (static w ∷ segments) h = ground (arith, static_texts_total segments)
static_texts_total (parameter w ∷ segments) h = cc

join-slashed : (w : Text) (ws : List Text) → join (codes "/") (w ∷ ws) ≡ w ++ slashed ws
unfolding join slashed
join-slashed w [] = sym (append-nil w)
join-slashed w (v ∷ ws) = rw (join-slashed v ws)

-- A prefix that stands for a list of parts, one at least.
pub record IsPrefixOf (prefix : NestedPrefix) (parts : List Text) : Type 0 where
  pub fine : All IsPart parts
  pub some_part : is_empty parts ≡ false
  pub value : prefix.value ≡ render_path parts
  pub count : prefix.segment_count ≡ length parts

texts_fine :
    (segments : List Segment)
    → All IsSegment segments
    → all is_static segments ≡ true
    → All IsPart (map segment_text segments)
texts_fine [] h k = tt
texts_fine (static w ∷ segments) (s, h) k = (s.0, texts_fine segments h (ground arith))
texts_fine (parameter w ∷ segments) h k = cc

length-map_lem {ℓ} : {A B : Type ℓ} (f : A → B) (xs : List A) → length (map f xs) ≡ length xs
length-map_lem f [] = refl
length-map_lem f (x ∷ xs) = ap suc (length-map_lem f xs)

prefix_value :
    (segments : List Segment)
    → is_empty segments ≡ false
    → b'/' ∷ join (codes "/") (map segment_text segments) ≡ render_path (map segment_text segments)
unfolding render_path slashed
prefix_value [] h = cc
prefix_value (s ∷ segments) h =
    ap (λ t. b'/' ∷ t) (join-slashed (segment_text s) (map segment_text segments))

-- What `parse_prefix` returns when the pattern parses.
prefix_of : RoutePattern → Result NestedPrefix RouteError
prefix_of p =
    if is_empty p.segments
    then err empty_prefix
    else if not (all is_static p.segments)
    then err parameter_prefix
    else ok (record {
      value = b'/' ∷ join (codes "/") (map segment_text p.segments);
      segment_count = length p.segments;
    })

parse_prefix_ok :
    (path : Text) (p : RoutePattern) → parse path ≡ ok p → parse_prefix path ≡ some (prefix_of p)
unfolding parse_prefix prefix_of
parse_prefix_ok path p e =
    rw (e, parse_prefix)
      (elim (Bool-cases (all is_static p.segments)) [
        | inl fixed ↦ ground (arith, static_texts_total p.segments fixed)
        | inr bound ↦ ground arith
      ])

is_empty-map : (segments : List Segment) → is_empty (map segment_text segments) ≡ is_empty segments
is_empty-map [] = refl
is_empty-map (s ∷ segments) = refl

-- What `strip` makes of the text after the prefix.
abbrev cut : Text → Option Text
cut remaining =
    if is_empty remaining
    then some (codes "/")
    else if starts_with (codes "/") remaining
    then some remaining
    else none

strip-cut : (prefix : NestedPrefix) (rest : Text) → strip prefix (prefix.value ++ rest) ≡ cut rest
unfolding strip
strip-cut prefix rest =
    rw ((strip_prefix_iff prefix.value (prefix.value ++ rest) rest).1 refl, strip)

strip_value : (prefix : NestedPrefix) → strip prefix prefix.value ≡ some (codes "/")
strip_value prefix = ap (strip prefix) (sym (append-nil prefix.value)) ∙ strip-cut prefix []

cut_cases :
    (value remaining rest : Text)
    → cut remaining ≡ some rest
    → ((value ++ remaining ≡ value) × (rest ≡ codes "/"))
      ⊎ ((value ++ remaining ≡ value ++ rest) × (starts_with (codes "/") rest ≡ true))
unfolding starts_with
cut_cases value [] rest e = inl (append-nil value, ground arith)
cut_cases value (c ∷ remaining) rest e = inr (ground arith, ground arith)

slashed_cut : (rest : Text) → starts_with (codes "/") rest ≡ true → cut rest ≡ some rest
unfolding starts_with
slashed_cut [] h = cc
slashed_cut (c ∷ rest) h = ground arith

-- `strip` succeeds exactly on the prefix itself, of which "/" remains, and on the prefix followed
-- by a slash, of which that slash and what follows remain.
strip_iff :
    (prefix : NestedPrefix) (path rest : Text)
    → (strip prefix path ≡ some rest) ↔ (
        ((path ≡ prefix.value) × (rest ≡ codes "/"))
        ⊎ ((path ≡ prefix.value ++ rest) × (starts_with (codes "/") rest ≡ true)))
unfolding strip starts_with
strip_iff prefix path rest = (
  λ e. elim (Option-cases (strip_prefix prefix.value path)) [
    | inl missed ↦ cc (rw (missed, strip) at e)
    | inr (remaining, found) ↦
        let same = (strip_prefix_iff prefix.value path remaining).0 found in
        rw same (cut_cases prefix.value remaining rest (rw (found, strip) at e))
  ],
  elim [
    | inl (same, root) ↦ rw same (strip_value prefix ∙ ap some (sym root))
    | inr (same, slash) ↦ rw same (strip-cut prefix rest ∙ slashed_cut rest slash)
  ],
)

split_first-append_sep :
    (s t : Text)
    → split_first b'/' (s ++ b'/' ∷ t)
      ≡ ((split_first b'/' s).0, (split_first b'/' s).1 ++ split b'/' t)
unfolding split split_first
split_first-append_sep [] t = refl
split_first-append_sep (c ∷ s) t = ground (arith, split_first-append_sep s t)

keep-split-append :
    (s t : Text)
    → keep nonempty (split b'/' (s ++ b'/' ∷ t))
      ≡ keep nonempty (split b'/' s) ++ keep nonempty (split b'/' (b'/' ∷ t))
unfolding split
keep-split-append s t =
    rw (split_first-append_sep s t)
      (keep-append nonempty (split b'/' s) (split b'/' t) ∙ unfold split_first in refl)

path_segments_lem : (path : Text) → path_segments path ≡ keep nonempty (split b'/' path)
unfolding path_segments
path_segments_lem path = keep-split-trim_matches b'/' path

path_segments-append :
    (s t : Text) → path_segments (s ++ b'/' ∷ t) ≡ path_segments s ++ path_segments (b'/' ∷ t)
path_segments-append s t =
    rw (path_segments_lem (s ++ b'/' ∷ t), path_segments_lem s, path_segments_lem (b'/' ∷ t))
      (keep-split-append s t)

path_segments-below :
    (value rest : Text)
    → starts_with (codes "/") rest ≡ true
    → path_segments (value ++ rest) ≡ path_segments value ++ path_segments rest
unfolding starts_with
path_segments-below value [] h = cc
path_segments-below value (c ∷ rest) h =
    let slash : c ≡ b'/' = ground arith in rw slash (path_segments-append value rest)

root_segments : path_segments (codes "/") ≡ []
root_segments = path_segments_lem (codes "/") ∙ unfold split split_first in refl

-- A request below a nested prefix has the prefix's segments, followed by those of the path that
-- the nested service receives; so no segment is lost or split.
pub path_segments-strip :
    (prefix : NestedPrefix) (parts : List Text) (path rest : Text)
    → IsPrefixOf prefix parts
    → strip prefix path ≡ some rest
    → path_segments path ≡ parts ++ path_segments rest
path_segments-strip prefix parts path rest h e = elim ((strip_iff prefix path rest).0 e) [
  | inl (same, root) ↦
      rw (same, root, h.value, path_segments-render_path parts h.fine, root_segments)
        (sym (append-nil parts))
  | inr (same, slash) ↦ rw same (
      path_segments-below prefix.value rest slash
      ∙ ap (λ ws. ws ++ path_segments rest)
          (ap path_segments h.value ∙ path_segments-render_path parts h.fine))
]

prefix_of_ok :
    (p : RoutePattern) (prefix : NestedPrefix)
    → prefix_of p ≡ ok prefix
    → (is_empty p.segments ≡ false)
      × (all is_static p.segments ≡ true)
      × (prefix.value ≡ b'/' ∷ join (codes "/") (map segment_text p.segments))
      × (prefix.segment_count ≡ length p.segments)
unfolding prefix_of
prefix_of_ok p prefix e = ground arith

prefix_of-IsPrefixOf :
    (p : RoutePattern) (prefix : NestedPrefix)
    → IsValid p
    → prefix_of p ≡ ok prefix
    → IsPrefixOf prefix (map segment_text p.segments)
prefix_of-IsPrefixOf p prefix h e =
    let (some_part, fixed, value, count) = prefix_of_ok p prefix e in
    record {
      fine = texts_fine p.segments h.segments fixed;
      some_part = is_empty-map p.segments ∙ some_part;
      value = value ∙ prefix_value p.segments some_part;
      count = count ∙ sym (length-map_lem segment_text p.segments);
    }

-- `NestedPrefix::parse` never reaches its `unreachable!`, and the prefix that it returns stands for
-- the segments of its path, of which there is one at least.
parse_prefix_total :
    (path : Text)
    → (result : Result NestedPrefix RouteError) × (parse_prefix path ≡ some result)
      × ((prefix : NestedPrefix) → result ≡ ok prefix → IsPrefixOf prefix (path_segments path))
parse_prefix_total path = elim (Result-cases (parse path)) [
  | inl (p, parsed) ↦ (
    prefix_of p,
    parse_prefix_ok path p parsed,
    λ prefix e.
        rw (← parse-texts path p parsed)
          (prefix_of-IsPrefixOf p prefix (parse-IsValid path p parsed) e),
  )
  | inr (e, failed) ↦ (err e, unfold parse_prefix in rw (failed, parse_prefix), λ prefix same. cc)
]
