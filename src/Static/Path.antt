-- ===== src/Static/Path.antt =====
-- crates/rustee-static/src/config.rs: the mount path and the limits of a static file layer, and
-- the relative path that a request's path names. A path is its bytes in UTF-8, as `as_bytes` gives
-- them; a `PathBuf` built by `push` is the list of what was pushed.
pub mod Safe
use rustee_web_framework.Prelude.{
  ℕ, zero, suc, ◌+◌, ◌-◌, ◌*◌, Bool, true, false, not, ◌&&◌, ◌||◌, Option, none, some, List, [],
  ◌∷◌, ltb, leb, ◌==◌, if◌then◌else◌, length, all, is_empty, drop,
}
use rustee_web_framework.Prelude.Result.{Result, ok, err}
use rustee_web_framework.Text.{
  Text, eqb, codes, strip_prefix, starts_with, ends_with, contains, has_char,
}
use rustee_web_framework.Text.Split.{split}

-- What the paths and the limits of a `StaticFiles` are.
pub record StaticFiles : Type 0 where
  pub mount_path : Text
  pub max_file_bytes : ℕ
  pub streaming_threshold : Option ℕ

pub data StaticFilesError : Type 0 where
  root_canonicalization root_not_directory invalid_mount_path zero_max_file_bytes
        zero_streaming_threshold :
      StaticFilesError

abbrev pub default_max_file_bytes : ℕ
default_max_file_bytes = 8388608

-- `StaticFiles::new`, on what the file system says of the root: that it has a canonical path, and
-- that this is a directory.
unfoldable pub static_files_new : Bool → Bool → Result StaticFiles StaticFilesError
static_files_new canonical is_dir =
    if not canonical
    then err StaticFilesError.root_canonicalization
    else if not is_dir
    then err StaticFilesError.root_not_directory
    else ok (record {
      mount_path = codes "/static";
      max_file_bytes = default_max_file_bytes;
      streaming_threshold = none;
    })

unfoldable pub valid_mount_segment : Text → Bool
valid_mount_segment segment =
    not (is_empty segment)
    && not (eqb segment (codes ".") || eqb segment (codes ".."))
    && not (has_char b'\\' segment || has_char 0 segment)

unfoldable pub valid_mount_path : Text → Bool
unfolding valid_mount_segment
valid_mount_path path =
    if not (starts_with (codes "/") path)
      || (has_char b'?' path || has_char b'#' path || has_char b'%' path)
      || contains (codes "//") path
      || ltb 1 (length path) && ends_with (codes "/") path
    then false
    else eqb path (codes "/") || all valid_mount_segment (drop 1 (split b'/' path))

-- `StaticFiles::at`.
unfoldable pub at_mount : Text → StaticFiles → Result StaticFiles StaticFilesError
at_mount mount_path files =
    if not (valid_mount_path mount_path)
    then err StaticFilesError.invalid_mount_path
    else ok (record files { mount_path = mount_path })

unfoldable pub with_max_file_bytes : ℕ → StaticFiles → Result StaticFiles StaticFilesError
with_max_file_bytes max_file_bytes files =
    if max_file_bytes == 0
    then err StaticFilesError.zero_max_file_bytes
    else ok (record files { max_file_bytes = max_file_bytes })

unfoldable pub with_streaming_threshold : ℕ → StaticFiles → Result StaticFiles StaticFilesError
with_streaming_threshold threshold files =
    if threshold == 0
    then err StaticFilesError.zero_streaming_threshold
    else ok (record files { streaming_threshold = some threshold })

-- The error is `()`.
unfoldable pub hex_value : ℕ → Option ℕ
hex_value value =
    if leb b'0' value && leb value b'9'
    then some (value - b'0')
    else if leb b'a' value && leb value b'f'
    then some (value - b'a' + 10)
    else if leb b'A' value && leb value b'F'
    then some (value - b'A' + 10)
    else none

-- `String::from_utf8`: how many bytes are to come in a character, and the range of the next.
pub record Utf8 : Type 0 where
  pub pending : ℕ
  pub low : ℕ
  pub high : ℕ

abbrev pub awaits : ℕ → ℕ → ℕ → Option Utf8
awaits pending low high = some (record { pending = pending; low = low; high = high })

abbrev pub lead_byte : ℕ → Option Utf8
lead_byte b =
    if ltb b 0x80
    then awaits 0 0 0
    else if ltb b 0xc2
    then none
    else if ltb b 0xe0
    then awaits 1 0x80 0xbf
    else if b == 0xe0
    then awaits 2 0xa0 0xbf
    else if b == 0xed
    then awaits 2 0x80 0x9f
    else if ltb b 0xf0
    then awaits 2 0x80 0xbf
    else if b == 0xf0
    then awaits 3 0x90 0xbf
    else if ltb b 0xf4
    then awaits 3 0x80 0xbf
    else if b == 0xf4
    then awaits 3 0x80 0x8f
    else none

abbrev pub next_byte : Utf8 → ℕ → Option Utf8
next_byte state b =
    if state.pending == 0
    then lead_byte b
    else if leb state.low b && leb b state.high
    then awaits (state.pending - 1) 0x80 0xbf
    else none

unfoldable pub utf8_from : Utf8 → List ℕ → Bool
utf8_from state [] = state.pending == 0
utf8_from state (b ∷ bytes) = elim (next_byte state b) [
  | none ↦ false
  | some next ↦ utf8_from next bytes
]

unfoldable pub is_utf8 : List ℕ → Bool
unfolding utf8_from
is_utf8 bytes = utf8_from (record { pending = 0; low = 0; high = 0 }) bytes

abbrev pub cons : Option ℕ → Option Text → Option Text
cons none bytes = none
cons (some byte) none = none
cons (some byte) (some bytes) = some (byte ∷ bytes)

-- `(hex_value(high)? << 4) | hex_value(low)?`: the low digit is below 16.
abbrev pub escaped : ℕ → ℕ → Option ℕ
escaped high low = elim (hex_value high) [
  | none ↦ none
  | some h ↦ elim (hex_value low) [ none ↦ none | some l ↦ some (h * 16 + l) ]
]

-- The loop of `percent_decode_segment`, from where `index` stands.
unfoldable pub decode : Text → Option Text
unfolding hex_value
decode [] = some []
decode (b ∷ []) = if b == b'%' then none else some (b ∷ [])
decode (b ∷ high ∷ []) = elim (b == b'%') [
  | true ↦ none
  | false ↦ cons (some b) (decode (high ∷ []))
]
decode (b ∷ high ∷ low ∷ bytes) = elim (b == b'%') [
  | true ↦ cons (escaped high low) (decode bytes)
  | false ↦ cons (some b) (decode (high ∷ low ∷ bytes))
]

unfoldable pub percent_decode_segment : Text → Option Text
unfolding decode is_utf8 valid_mount_segment
percent_decode_segment segment = if is_empty segment then none else elim (decode segment) [
  | none ↦ none
  | some decoded ↦
      if not (is_utf8 decoded)
      then none
      else if not (valid_mount_segment decoded) || has_char b'/' decoded
      then none
      else some decoded
]

-- The loop of `relative_path`.
unfoldable pub push_segments : List Text → Option (List Text)
unfolding percent_decode_segment
push_segments [] = some []
push_segments (segment ∷ segments) = elim (percent_decode_segment segment) [
  | none ↦ none
  | some decoded ↦ elim (push_segments segments) [ none ↦ none | some rest ↦ some (decoded ∷ rest) ]
]

-- What follows the mount path, in `relative_path`.
pub data Relative : Type 0 where
  malformed outside : Relative
  inside : Text → Relative

unfoldable pub behind_mount : Text → Text → Relative
behind_mount mount_path path =
    if eqb mount_path (codes "/")
    then elim (strip_prefix (codes "/") path) [
      | none ↦ Relative.malformed
      | some relative ↦ Relative.inside relative
    ]
    else if eqb path mount_path
    then Relative.inside []
    else elim (strip_prefix mount_path path) [
      | none ↦ Relative.outside
      | some suffix ↦ elim (strip_prefix (codes "/") suffix) [
        | none ↦ Relative.outside
        | some relative ↦ Relative.inside relative
      ]
    ]

-- `relative_path`: `none` for its error, `some none` for a path outside the mount path.
unfoldable pub relative_path : StaticFiles → Text → Option (Option (List Text))
unfolding behind_mount push_segments
relative_path files path = elim (behind_mount files.mount_path path) [
  | Relative.malformed ↦ none
  | Relative.outside ↦ some none
  | Relative.inside relative ↦
      if is_empty relative then some (some []) else elim (push_segments (split b'/' relative)) [
        | none ↦ none
        | some local ↦ some (some local)
      ]
]
