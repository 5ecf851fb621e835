-- ===== src/Router/Pattern/Render.antt =====
-- crates/rustee-router/src/pattern.rs: the path of a list of segments, and reading it back.
use rustee_web_framework.Prelude.{
  ℕ, ◌≡◌, refl, ◌∙◌, true, false, ◌||◌, List, [], ◌∷◌, ◌++◌, arith, ◌==◌, keep, all, All,
  All-append, append-nil, map,
}
use rustee_web_framework.Prelude.Result.{ok}
use rustee_web_framework.Text.{Text, has_char, starts_with, contains, codes}
use rustee_web_framework.Text.Split.{
  Lacks, nonempty, split, split_first, split_first-append, split_first-Lacks,
  keep-split-trim_matches,
}
use rustee_web_framework.Router.Pattern.{
  Segment, static, parameter, RoutePattern, is_name_char, parse, path_segments,
}
use rustee_web_framework.Router.Pattern.Valid.{
  IsPart, IsSegment, IsValid, IsPathChar, segment_text, parse_segments_complete,
}

unfoldable pub slashed : List Text → Text
slashed [] = []
slashed (w ∷ ws) = b'/' ∷ (w ++ slashed ws)

-- The segments joined by slashes, with a slash in front.
unfoldable pub render_path : List Text → Text
unfolding slashed
render_path [] = codes "/"
render_path (w ∷ ws) = slashed (w ∷ ws)

split_first-slashed :
    (w : Text) (ws : List Text)
    → Lacks b'/' w
    → All IsPart ws
    → split_first b'/' (w ++ slashed ws) ≡ (w, ws)
unfolding slashed split
split_first-slashed w [] h k = rw (append-nil w) (split_first-Lacks b'/' w h)
split_first-slashed w (v ∷ ws) h (k, ks) =
    split_first-append b'/' w (v ++ slashed ws) h ∙ ground (arith, split_first-slashed v ws k.1 ks)

keep_parts : (ws : List Text) → All IsPart ws → keep nonempty ws ≡ ws
keep_parts [] h = refl
keep_parts (w ∷ ws) ((some_char, plain), hs) = rw (some_char, keep_parts ws hs)

-- The segments of a rendered path are those that were rendered.
pub path_segments-render_path :
    (ws : List Text) → All IsPart ws → path_segments (render_path ws) ≡ ws
unfolding path_segments render_path split_first split
path_segments-render_path [] h = rw (keep-split-trim_matches b'/' (codes "/"))
path_segments-render_path (w ∷ ws) (h, hs) =
    rw (keep-split-trim_matches b'/' (slashed (w ∷ ws)))
      (rw (split_first-slashed w ws h.1 hs) (keep_parts (w ∷ ws) (h, hs)))

contains-append :
    (w s : Text) → Lacks b'/' w → contains (codes "//") (w ++ s) ≡ contains (codes "//") s
unfolding contains
contains-append [] s h = refl
contains-append (c ∷ w) s (p, h) = ground (arith, contains-append w s h)

contains-slashed : (ws : List Text) → All IsPart ws → contains (codes "//") (slashed ws) ≡ false
unfolding slashed contains
contains-slashed [] h = refl
contains-slashed ([] ∷ ws) ((some_char, plain), hs) = cc
contains-slashed ((c ∷ w) ∷ ws) ((some_char, plain), hs) =
    ground (arith, contains-append (c ∷ w) (slashed ws) plain, contains-slashed ws hs)

pub contains-render_path :
    (ws : List Text) → All IsPart ws → contains (codes "//") (render_path ws) ≡ false
unfolding render_path contains
contains-render_path [] h = refl
contains-render_path (w ∷ ws) h = contains-slashed (w ∷ ws) h

-- The route path of a pattern.
unfoldable pub render : RoutePattern → Text
render p = render_path (map segment_text p.segments)

name_char : (c : ℕ) → is_name_char c ≡ true → IsPathChar c × ((c == b'/') ≡ false)
name_char c h = ground arith

name_chars : (name : Text) → all is_name_char name ≡ true → All IsPathChar name × Lacks b'/' name
name_chars [] h = (tt, tt)
name_chars (c ∷ name) h = ground (arith, name_char c, name_chars name)

texts-IsPart :
    (segments : List Segment)
    → All IsSegment segments
    → All IsPart (map segment_text segments) × All (All IsPathChar) (map segment_text segments)
texts-IsPart [] h = (tt, tt)
texts-IsPart (static w ∷ segments) ((part, plain, chars), h) =
    let (parts, all_chars) = texts-IsPart segments h in ((part, parts), (chars, all_chars))
texts-IsPart (parameter name ∷ segments) ((some_char, chars), h) =
    let (parts, all_chars) = texts-IsPart segments h in
    let (path_chars, plain) = name_chars name chars in
    (((refl, (refl, plain)), parts), (((refl, refl), path_chars), all_chars))

slashed-IsPathChar : (ws : List Text) → All (All IsPathChar) ws → All IsPathChar (slashed ws)
unfolding slashed
slashed-IsPathChar [] h = tt
slashed-IsPathChar (w ∷ ws) (h, hs) =
    ((refl, refl), All-append IsPathChar w (slashed ws) h (slashed-IsPathChar ws hs))

render_path-IsPathChar :
    (ws : List Text)
    → All (All IsPathChar) ws
    → All IsPathChar (render_path ws) × (starts_with (codes "/") (render_path ws) ≡ true)
unfolding render_path slashed starts_with
render_path-IsPathChar [] h = (((refl, refl), tt), refl)
render_path-IsPathChar (w ∷ ws) h = (slashed-IsPathChar (w ∷ ws) h, refl)

no_marks : (path : Text) → All IsPathChar path → (has_char b'?' path || has_char b'#' path) ≡ false
no_marks [] h = refl
no_marks (c ∷ path) h = ground (arith, no_marks path)

-- Rendering a valid pattern as a route path and parsing that path gives the pattern back.
pub parse-render : (p : RoutePattern) → IsValid p → parse (render p) ≡ ok p
unfolding parse render
parse-render p h =
    let texts = map segment_text p.segments in
    let (parts, chars) = texts-IsPart p.segments h.segments in
    let (path_chars, slash) = render_path-IsPathChar texts chars in
    rw
      (
        slash,
        no_marks (render_path texts) path_chars,
        contains-render_path texts parts,
        path_segments-render_path texts parts,
      )
      (parse_segments_complete p.segments [] 0 [] h.segments h.distinct ∙ ground (arith, h.counted))
