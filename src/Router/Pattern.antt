-- ===== src/Router/Pattern.antt =====
-- crates/rustee-router/src/pattern.rs: parsing and matching of route patterns, and prefixes of
-- nested services. `names` is a set of which only membership is read, so it is a list here.
pub mod Valid
pub mod Render
pub mod Fits
pub mod Prefix
use rustee_web_framework.Prelude.{
  ℕ, ◌+◌, ◌≡◌, Bool, true, false, not, ◌&&◌, ◌||◌, Option, none, some, List, [], ◌∷◌, ◌++◌, ◌==◌,
  if◌then◌else◌, keep, any, all, is_empty, length,
}
use rustee_web_framework.Prelude.Result.{Result, ok, err, ◌>>=◌}
use rustee_web_framework.Text.{
  Text, eqb, strip_prefix, starts_with, contains, has_char, is_ascii_alphanumeric, codes,
}
use rustee_web_framework.Text.Trim.{trim_matches}
use rustee_web_framework.Text.Split.{split, nonempty, join}

-- The message of a `RouteError`.
pub data RouteError : Type 0 where
  missing_slash query_or_fragment repeated_separators bad_parameter_name : RouteError
  duplicate_parameter_name already_registered empty_prefix parameter_prefix : RouteError

pub data Segment : Type 0 where
  static parameter : Text → Segment

pub record RoutePattern : Type 0 where
  pub segments : List Segment
  pub static_segments : ℕ

abbrev pub RouteParams : Type 0
RouteParams = List (Text × Text)

-- `RouteParams::get`.
unfoldable pub get : RouteParams → Text → Option Text
get [] name = none
get ((key, value) ∷ params) name = if eqb key name then some value else get params name

-- `path.trim_matches('/').split('/').filter(|segment| !segment.is_empty())`.
unfoldable pub path_segments : Text → List Text
path_segments path = keep nonempty (split b'/' (trim_matches (λ c. c == b'/') path))

abbrev pub is_name_char : ℕ → Bool
is_name_char c = is_ascii_alphanumeric c || c == b'_'

-- The loop of `RoutePattern::parse`.
unfoldable pub parse_segments :
    List Text → List Text → ℕ → List Segment → Result RoutePattern RouteError
parse_segments [] names statics segments =
    ok (record { segments = segments; static_segments = statics })
parse_segments (segment ∷ rest) names statics segments = elim (strip_prefix (codes ":") segment) [
  | some name ↦
      if is_empty name || not (all is_name_char name)
      then err bad_parameter_name
      else if any (eqb name) names
      then err duplicate_parameter_name
      else parse_segments rest (name ∷ names) statics (segments ++ parameter name ∷ [])
  | none ↦ parse_segments rest names (statics + 1) (segments ++ static segment ∷ [])
]

unfoldable pub parse : Text → Result RoutePattern RouteError
parse path =
    if not (starts_with (codes "/") path)
    then err missing_slash
    else if has_char b'?' path || has_char b'#' path
    then err query_or_fragment
    else if contains (codes "//") path
    then err repeated_separators
    else parse_segments (path_segments path) [] 0 []

-- The loop of `RoutePattern::matches`, over the iterator `incoming`.
unfoldable pub match_segments : List Segment → List Text → RouteParams → Option RouteParams
match_segments [] [] params = some params
match_segments [] (extra ∷ incoming) params = none
match_segments (segment ∷ segments) [] params = none
match_segments (static expected ∷ segments) (part ∷ incoming) params =
    if eqb expected part then match_segments segments incoming params else none
match_segments (parameter name ∷ segments) (part ∷ incoming) params =
    match_segments segments incoming (params ++ (name, part) ∷ [])

unfoldable pub matches : RoutePattern → Text → Option RouteParams
matches pattern path =
    if contains (codes "//") path
    then none
    else match_segments pattern.segments (path_segments path) []

abbrev same_segment : Segment → Segment → Bool
same_segment (static left) (static right) = eqb left right
same_segment (parameter left) (parameter right) = true
same_segment (static left) (parameter right) = false
same_segment (parameter left) (static right) = false

-- `zip` stops at the end of the shorter list.
abbrev zip_all : List Segment → List Segment → Bool
zip_all [] right = true
zip_all (s ∷ left) [] = true
zip_all (s ∷ left) (t ∷ right) = same_segment s t && zip_all left right

unfoldable pub is_equivalent_to : RoutePattern → RoutePattern → Bool
is_equivalent_to p q = length p.segments == length q.segments && zip_all p.segments q.segments

pub record NestedPrefix : Type 0 where
  pub value : Text
  pub segment_count : ℕ

abbrev pub is_static : Segment → Bool
is_static (static w) = true
is_static (parameter w) = false

-- The parts of a prefix without parameters; `unreachable!` stands for the other case.
abbrev pub static_texts : List Segment → Option (List Text)
static_texts [] = some []
static_texts (static w ∷ segments) = elim (static_texts segments) [
  | none ↦ none
  | some ws ↦ some (w ∷ ws)
]
static_texts (parameter w ∷ segments) = none

-- `NestedPrefix::parse`; `none` is the panic of `unreachable!`.
unfoldable pub parse_prefix : Text → Option (Result NestedPrefix RouteError)
parse_prefix path = elim (parse path) [
  | err e ↦ some (err e)
  | ok pattern ↦
      if is_empty pattern.segments
      then some (err empty_prefix)
      else if not (all is_static pattern.segments)
      then some (err parameter_prefix)
      else elim (static_texts pattern.segments) [
        | none ↦ none
        | some values ↦ some (
            ok (record {
              value = b'/' ∷ join (codes "/") values;
              segment_count = length pattern.segments;
            }))
      ]
]

-- `NestedPrefix::strip`.
unfoldable pub strip : NestedPrefix → Text → Option Text
strip prefix path = elim (strip_prefix prefix.value path) [
  | none ↦ none
  | some remaining ↦
      if is_empty remaining
      then some (codes "/")
      else if starts_with (codes "/") remaining
      then some remaining
      else none
]
