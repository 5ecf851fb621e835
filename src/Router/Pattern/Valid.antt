-- ===== src/Router/Pattern/Valid.antt =====
-- crates/rustee-router/src/pattern.rs: the patterns that `RoutePattern::parse` returns.
use rustee_web_framework.Prelude.{
  ℕ, ◌+◌, ◌≡◌, refl, sym, ap, ap₂, ◌∙◌, inl, inr, Bool, true, false, not, ◌||◌, none, List, [], ◌∷◌,
  ◌++◌, arith, ◌==◌, if◌then◌else◌, keep, any, all, is_empty, All, append-nil, append_assoc,
  Option-cases, map,
}
use native.Mathlib.Nat.{add-zero}
use rustee_web_framework.Prelude.Result.{Result, ok, err}
use rustee_web_framework.Text.{Text, has_char, eqb, strip_prefix, strip_prefix_iff, codes}
use rustee_web_framework.Text.Split.{
  Lacks, nonempty, split, split_first, split-parts_Lack, keep-split-trim_matches,
}
use rustee_web_framework.Text.Trim.{trim_matches}
use rustee_web_framework.Router.Pattern.{
  Segment, static, parameter, RoutePattern, is_name_char, parse_segments, parse, path_segments,
  RouteError, bad_parameter_name, duplicate_parameter_name,
}

-- A part of a path that can be one segment of it.
abbrev pub IsPart : Text → Type 0
IsPart w = (nonempty w ≡ true) × Lacks b'/' w

-- A route path holds no query string and no fragment.
abbrev pub IsPathChar : ℕ → Type 0
IsPathChar c = ((c == b'?') ≡ false) × ((c == b'#') ≡ false)

abbrev pub IsName : Text → Type 0
IsName name = (is_empty name ≡ false) × (all is_name_char name ≡ true)

abbrev pub IsSegment : Segment → Type 0
IsSegment (static w) = IsPart w × (strip_prefix (codes ":") w ≡ none) × All IsPathChar w
IsSegment (parameter name) = IsName name

-- The parameter names of a pattern, those seen so far first, are distinct.
abbrev pub Distinct : List Text → List Segment → Type 0
Distinct names [] = Unit
Distinct names (static w ∷ segments) = Distinct names segments
Distinct names (parameter name ∷ segments) =
    (any (eqb name) names ≡ false) × Distinct (name ∷ names) segments

abbrev pub count_static : List Segment → ℕ
count_static [] = 0
count_static (static w ∷ segments) = 1 + count_static segments
count_static (parameter w ∷ segments) = count_static segments

pub record IsValid (p : RoutePattern) : Type 0 where
  pub segments : All IsSegment p.segments
  pub distinct : Distinct [] p.segments
  pub counted : p.static_segments ≡ count_static p.segments

-- The text of one segment.
abbrev pub segment_text : Segment → Text
segment_text (static w) = w
segment_text (parameter name) = b':' ∷ name

-- What the loop has read from `parts`, after the segments `acc`.
record Read (parts names : List Text) (n : ℕ) (acc : List Segment) (p : RoutePattern) : Type 0 where
  new : List Segment
  texts : map segment_text new ≡ parts
  appended : p.segments ≡ acc ++ new
  counted : p.static_segments ≡ n + count_static new
  fine : All IsSegment new
  distinct : Distinct names new

IsName-read :
    (name : Text) (names : List Text) (more : Result RoutePattern RouteError) (p : RoutePattern)
    → (if is_empty name || not (all is_name_char name)
        then err bad_parameter_name
        else if any (eqb name) names
        then err duplicate_parameter_name
        else more)
      ≡ ok p
    → IsName name × (any (eqb name) names ≡ false) × (more ≡ ok p)
IsName-read name names more p e = ground arith

parse_segments_sound :
    (parts names : List Text) (n : ℕ) (acc : List Segment) (p : RoutePattern)
    → All IsPart parts
    → All (All IsPathChar) parts
    → parse_segments parts names n acc ≡ ok p
    → Read parts names n acc p
unfolding parse_segments
parse_segments_sound [] names n acc p h k e = record {
  new = [];
  texts = refl;
  appended = ground (arith, append-nil acc);
  counted = ground (arith, add-zero n);
  fine = tt;
  distinct = tt;
}
parse_segments_sound (part ∷ parts) names n acc p (h, hs) (k, ks) e =
    elim (Option-cases (strip_prefix (codes ":") part)) [
      | inl plain ↦
          let r =
            parse_segments_sound parts names (n + 1) (acc ++ static part ∷ []) p hs ks
              (rw (plain, parse_segments) at e) in
          record {
            new = static part ∷ r.new;
            texts = ap (λ t. part ∷ t) r.texts;
            appended = r.appended ∙ append_assoc acc (static part ∷ []) r.new;
            counted = omega (arith, r.counted);
            fine = ((h, plain, k), r.fine);
            distinct = r.distinct;
          }
      | inr (name, found) ↦
          let (named, fresh, e') = IsName-read name names _ p (rw (found, parse_segments) at e) in
          let r =
            parse_segments_sound parts (name ∷ names) n (acc ++ parameter name ∷ []) p hs ks e' in
          record {
            new = parameter name ∷ r.new;
            texts = ap₂ ◌∷◌ (sym ((strip_prefix_iff (codes ":") part name).0 found)) r.texts;
            appended = r.appended ∙ append_assoc acc (parameter name ∷ []) r.new;
            counted = r.counted;
            fine = (named, r.fine);
            distinct = (fresh, r.distinct);
          }
    ]

-- The loop reads back the texts of new segments.
pub parse_segments_complete :
    (new : List Segment) (names : List Text) (n : ℕ) (acc : List Segment)
    → All IsSegment new
    → Distinct names new
    → parse_segments (map segment_text new) names n acc
      ≡ ok (record { segments = acc ++ new; static_segments = n + count_static new })
unfolding parse_segments
parse_segments_complete [] names n acc h d = ground (arith, append-nil acc, add-zero n)
parse_segments_complete (static w ∷ new) names n acc ((part, plain, k), h) d =
    rw (plain, parse_segments)
      (parse_segments_complete new names (n + 1) (acc ++ static w ∷ []) h d
        ∙ ground (arith, append_assoc acc (static w ∷ []) new))
parse_segments_complete (parameter name ∷ new) names n acc ((some_char, chars), h) (fresh, d) =
    rw ((strip_prefix_iff (codes ":") (b':' ∷ name) name).1 refl, parse_segments)
      (ground (
        arith,
        parse_segments_complete new (name ∷ names) n (acc ++ parameter name ∷ []) h d,
        append_assoc acc (parameter name ∷ []) new,
      ))

path_char : (path : Text) → (has_char b'?' path || has_char b'#' path) ≡ false → All IsPathChar path
path_char [] h = tt
path_char (c ∷ path) h = ground (arith, path_char path)

-- The characters of a path's segments are among the path's.
split_first-All :
    (P : ℕ → Type 0) (sep : ℕ) (s : Text)
    → All P s
    → All P (split_first sep s).0 × All (All P) (split_first sep s).1
unfolding split_first
split_first-All P sep [] h = (tt, tt)
split_first-All P sep (c ∷ s) (p, h) = ground (arith, split_first-All P sep s h)

All-keep {ℓ} :
    {A : Type ℓ} (P : A → Type 0) (p : A → Bool) (xs : List A) → All P xs → All P (keep p xs)
All-keep P p [] h = tt
All-keep P p (x ∷ xs) (q, h) = ground (arith, All-keep P p xs h)

keep-All {ℓ} : {A : Type ℓ} (p : A → Bool) (xs : List A) → All (λ x. p x ≡ true) (keep p xs)
keep-All p [] = tt
keep-All p (x ∷ xs) = ground (arith, keep-All p xs)

All-zip {ℓ} :
    {A : Type ℓ} (P Q : A → Type 0) (xs : List A) → All P xs → All Q xs → All (λ x. P x × Q x) xs
All-zip P Q [] h k = tt
All-zip P Q (x ∷ xs) (p, h) (q, k) = ((p, q), All-zip P Q xs h k)

pub path_segments-IsPart : (path : Text) → All IsPart (path_segments path)
unfolding path_segments
path_segments-IsPart path =
    let parts = split b'/' (trim_matches (λ c. c == b'/') path) in
    All-zip (λ w. nonempty w ≡ true) (Lacks b'/') (keep nonempty parts) (keep-All nonempty parts)
      (All-keep (Lacks b'/') nonempty parts (split-parts_Lack b'/' _))

path_segments-All : (P : ℕ → Type 0) (path : Text) → All P path → All (All P) (path_segments path)
unfolding path_segments split
path_segments-All P path h =
    rw (keep-split-trim_matches b'/' path)
      (All-keep (All P) nonempty (split b'/' path) (split_first-All P b'/' path h))

parse_guards :
    (path : Text) (p : RoutePattern)
    → parse path ≡ ok p
    → ((has_char b'?' path || has_char b'#' path) ≡ false)
      × (parse_segments (path_segments path) [] 0 [] ≡ ok p)
unfolding parse
parse_guards path p e = ground arith

-- A pattern that `RoutePattern::parse` returns is valid: its static segments are not empty and
-- hold no slash, query or fragment mark and no leading colon, its parameters have names of the
-- permitted characters, no two the same, and `static_segments` counts the static ones.
pub parse-IsValid : (path : Text) (p : RoutePattern) → parse path ≡ ok p → IsValid p
parse-IsValid path p e =
    let (marks, e') = parse_guards path p e in
    let r =
      parse_segments_sound (path_segments path) [] 0 [] p (path_segments-IsPart path)
        (path_segments-All IsPathChar path (path_char path marks)) e' in
    record {
      segments = rw r.appended r.fine;
      distinct = rw r.appended r.distinct;
      counted = rw r.appended (r.counted ∙ omega arith);
    }

-- The segments of a parsed pattern spell the segments of the path, in order.
pub parse-texts :
    (path : Text) (p : RoutePattern)
    → parse path ≡ ok p
    → map segment_text p.segments ≡ path_segments path
parse-texts path p e =
    let (marks, e') = parse_guards path p e in
    let r =
      parse_segments_sound (path_segments path) [] 0 [] p (path_segments-IsPart path)
        (path_segments-All IsPathChar path (path_char path marks)) e' in
    rw r.appended r.texts
