-- ===== src/Static/Path/Safe.antt =====
-- Which paths the requests to the static file layer of crates/rustee-static/src/config.rs name.
use rustee_web_framework.Prelude.{
  ℕ, ◌≡◌, ◌≢◌, refl, ap, subst, inl, inr, ◌⊎◌, true, false, some, List, [], ◌∷◌, ◌++◌, arith,
  length, All, All-map_lem, length-append, is_empty, Bool-cases, Option-cases,
}
use rustee_web_framework.Text.{Text, eqb, eqb_iff, codes, strip_prefix_iff, has_char}
use rustee_web_framework.Text.Split.{Lacks, split, join, split_first-append, split_first-Lacks}
use rustee_web_framework.Static.Path.{
  StaticFiles, valid_mount_segment, is_utf8, decode, percent_decode_segment, push_segments,
  Relative, behind_mount, relative_path,
}

-- A name of one entry in a directory: it goes neither up nor down, and ends no C string.
abbrev pub IsSafe : Text → Type 0
IsSafe name =
    (is_empty name ≡ false)
    × (name ≢ codes ".")
    × (name ≢ codes "..")
    × (has_char b'/' name ≡ false)
    × (has_char b'\\' name ≡ false)
    × (has_char 0 name ≡ false)
    × (is_utf8 name ≡ true)

valid_mount_segment-IsSafe :
    (name : Text)
    → valid_mount_segment name ≡ true
    → has_char b'/' name ≡ false
    → is_utf8 name ≡ true
    → IsSafe name
unfolding valid_mount_segment
valid_mount_segment-IsSafe name valid slash utf8 = (
  ground (arith, valid),
  λ e. ground (arith, valid, eqb_iff name (codes "."), e),
  λ e. ground (arith, valid, eqb_iff name (codes ".."), e),
  slash,
  ground (arith, valid),
  ground (arith, valid),
  utf8,
)

percent_decode_segment-IsSafe :
    (segment name : Text) → percent_decode_segment segment ≡ some name → IsSafe name
unfolding percent_decode_segment
percent_decode_segment-IsSafe segment name h = elim (Bool-cases (is_empty segment)) [
  | inl nothing ↦ absurd (ground (arith, nothing, h))
  | inr _ ↦ elim (Option-cases (decode segment)) [
    | inl malformed ↦ absurd (ground (arith, malformed, h))
    | inr (decoded, there) ↦ elim (Bool-cases (is_utf8 decoded)) [
      | inr invalid ↦ absurd (ground (arith, there, invalid, h))
      | inl utf8 ↦ elim (Bool-cases (valid_mount_segment decoded)) [
        | inr refused ↦ absurd (ground (arith, there, utf8, refused, h))
        | inl valid ↦ elim (Bool-cases (has_char b'/' decoded)) [
          | inl slash ↦ absurd (ground (arith, there, utf8, valid, slash, h))
          | inr plain ↦
              let same : (decoded ≡ name) = ground (arith, there, utf8, valid, plain, h) in
              subst IsSafe same (valid_mount_segment-IsSafe decoded valid plain utf8)
        ]
      ]
    ]
  ]
]

push_segments-IsSafe :
    (segments names : List Text) → push_segments segments ≡ some names → All IsSafe names
unfolding push_segments
push_segments-IsSafe [] [] h = tt
push_segments-IsSafe [] (name ∷ names) h = absurd (ground (arith, h))
push_segments-IsSafe (segment ∷ segments) names h =
    elim (Option-cases (percent_decode_segment segment)) [
      | inl malformed ↦ absurd (ground (arith, malformed, h))
      | inr (decoded, there) ↦ elim (Option-cases (push_segments segments)) [
        | inl wrong ↦ absurd (ground (arith, there, wrong, h))
        | inr (rest, follows) ↦
            let same : (decoded ∷ rest ≡ names) = ground (arith, there, follows, h) in
            subst (All IsSafe) same (
              percent_decode_segment-IsSafe segment decoded there,
              push_segments-IsSafe segments rest follows,
            )
      ]
    ]

Relative-cases :
    (found : Relative)
    → (found ≡ Relative.malformed)
      ⊎ (found ≡ Relative.outside)
      ⊎ ((relative : Text) × (found ≡ Relative.inside relative))
Relative-cases Relative.malformed = inl refl
Relative-cases Relative.outside = inr (inl refl)
Relative-cases (Relative.inside relative) = inr (inr (relative, refl))

-- Every part of the relative path that a request names is safe: it is not empty, not `.` or `..`,
-- holds no slash, backslash or NUL even if these were percent-encoded, and is valid UTF-8.
pub relative_path-IsSafe :
    (files : StaticFiles) (path : Text) (local : List Text)
    → relative_path files path ≡ some (some local)
    → All IsSafe local
unfolding relative_path
relative_path-IsSafe files path local h =
    elim (Relative-cases (behind_mount files.mount_path path)) [
      | inl malformed ↦ absurd (ground (arith, malformed, h))
      | inr (inl outside) ↦ absurd (ground (arith, outside, h))
      | inr (inr (relative, there)) ↦ elim (Bool-cases (is_empty relative)) [
        | inl root ↦
            let same : ([] ≡ local) = ground (arith, there, root, h) in subst (All IsSafe) same tt
        | inr deeper ↦ elim (Option-cases (push_segments (split b'/' relative))) [
          | inl wrong ↦ absurd (ground (arith, there, deeper, wrong, h))
          | inr (names, pushed) ↦
              let same : (names ≡ local) = ground (arith, there, deeper, pushed, h) in
              subst (All IsSafe) same (push_segments-IsSafe (split b'/' relative) names pushed)
        ]
      ]
    ]

-- A name that needs no escape is decoded as it is.
decode-plain : (name : Text) → has_char b'%' name ≡ false → decode name ≡ some name
unfolding decode
decode-plain [] h = refl
decode-plain (b ∷ []) h = ground (arith, h)
decode-plain (b ∷ c ∷ []) h = ground (arith, decode-plain (c ∷ []))
decode-plain (b ∷ c ∷ d ∷ name) h = ground (arith, decode-plain (c ∷ d ∷ name))

IsSafe-valid : (name : Text) → IsSafe name → valid_mount_segment name ≡ true
unfolding valid_mount_segment
IsSafe-valid name (filled, not_dot, not_dots, slash, backslash, nul, utf8) = ground (
  arith,
  filled,
  backslash,
  nul,
  eqb_iff name (codes "."),
  eqb_iff name (codes ".."),
  not_dot,
  not_dots,
)

percent_decode_segment-plain :
    (name : Text)
    → IsSafe name
    → has_char b'%' name ≡ false
    → percent_decode_segment name ≡ some name
unfolding percent_decode_segment
percent_decode_segment-plain name safe plain =
    let (filled, _, _, slash, _, _, utf8) = safe in
    ground (arith, filled, slash, utf8, decode-plain name plain, IsSafe-valid name safe)

has_char-Lacks : (sep : ℕ) (name : Text) → has_char sep name ≡ false → Lacks sep name
has_char-Lacks sep [] h = tt
has_char-Lacks sep (c ∷ name) h = (ground (arith, h), has_char-Lacks sep name (ground (arith, h)))

split-join :
    (name : Text) (names : List Text)
    → Lacks b'/' name
    → All (Lacks b'/') names
    → split b'/' (join (codes "/") (name ∷ names)) ≡ name ∷ names
unfolding split join
split-join name [] lacks rest = rw (split_first-Lacks b'/' name lacks) refl
split-join name (other ∷ names) lacks (next, rest) =
    let first = split_first-append b'/' name (join (codes "/") (other ∷ names)) lacks in
    rw first (ap (λ parts. name ∷ parts) (split-join other names next rest))

-- A safe name with no percent sign, which stands for itself in a path.
abbrev pub IsPlain : Text → Type 0
IsPlain name = IsSafe name × (has_char b'%' name ≡ false)

IsPlain-Lacks : (name : Text) → IsPlain name → Lacks b'/' name
IsPlain-Lacks name ((_, _, _, slash, _, _, _), _) = has_char-Lacks b'/' name slash

push_segments-plain : (names : List Text) → All IsPlain names → push_segments names ≡ some names
unfolding push_segments
push_segments-plain [] h = refl
push_segments-plain (name ∷ names) ((safe, plain), h) =
    ground (arith, percent_decode_segment-plain name safe plain, push_segments-plain names h)

longer : (mount relative : Text) → (mount ++ (codes "/" ++ relative)) ≢ mount
longer mount relative e =
    let lengths = ap length e in omega (arith, lengths, length-append mount (codes "/" ++ relative))

join-filled :
    (name : Text) (names : List Text)
    → is_empty name ≡ false
    → is_empty (join (codes "/") (name ∷ names)) ≡ false
unfolding join
join-filled [] names h = absurd (ground (arith, h))
join-filled (c ∷ name) [] h = refl
join-filled (c ∷ name) (other ∷ names) h = refl

behind_mount-below :
    (mount relative : Text)
    → mount ≢ codes "/"
    → behind_mount mount (mount ++ (codes "/" ++ relative)) ≡ Relative.inside relative
unfolding behind_mount
behind_mount-below mount relative below =
    let path = mount ++ (codes "/" ++ relative) in
    let not_root : (eqb mount (codes "/") ≡ false) =
      ground (arith, eqb_iff mount (codes "/"), below) in
    let not_mount : (eqb path mount ≡ false) =
      ground (arith, eqb_iff path mount, longer mount relative) in
    let behind = (strip_prefix_iff mount path (codes "/" ++ relative)).1 refl in
    let slash = (strip_prefix_iff (codes "/") (codes "/" ++ relative) relative).1 refl in
    rw (behind_mount, not_root, not_mount, behind, slash) refl

-- Below a mount path other than `/`, the path made of plain names names just these, one directory
-- under the other.
pub relative_path-join :
    (files : StaticFiles) (name : Text) (names : List Text)
    → files.mount_path ≢ codes "/"
    → All IsPlain (name ∷ names)
    → relative_path files (files.mount_path ++ (codes "/" ++ join (codes "/") (name ∷ names)))
      ≡ some (some (name ∷ names))
unfolding relative_path
relative_path-join files name names below (plain, rest) =
    let relative = join (codes "/") (name ∷ names) in
    let there = behind_mount-below files.mount_path relative below in
    let parts =
      split-join name names (IsPlain-Lacks name plain)
        (All-map_lem IsPlain (Lacks b'/') names IsPlain-Lacks rest) in
    let pushed = push_segments-plain (name ∷ names) (plain, rest) in
    rw (relative_path, there, join-filled name names plain.0.0, parts, pushed) refl
