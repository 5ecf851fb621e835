-- ===== src/Json.antt =====
-- crates/rustee-json/src/lib.rs: JSON written into a buffer with a byte limit. `serde_json` is of
-- another crate: what it does with a value is the list of its writes, and whether it then succeeds.
pub mod Limit
mod Tests
use rustee_web_framework.Prelude.{
  ℕ, ◌-◌, Bool, true, false, Option, none, some, List, [], ◌∷◌, ◌++◌, ltb, if◌then◌else◌, length,
}
use rustee_web_framework.Prelude.Result.{Result, ok, err}

pub data BoundedJsonError : Type 0 where
  too_large serialize : BoundedJsonError

pub record Writes : Type 0 where
  pub chunks : List (List ℕ)
  pub succeeds : Bool

pub record BoundedJsonBuffer : Type 0 where
  pub bytes : List ℕ
  pub max_bytes : ℕ
  pub exceeded : Bool

-- `BoundedJsonBuffer::write`; the first component says whether it was `Ok`.
unfoldable pub write : List ℕ → BoundedJsonBuffer → Bool × BoundedJsonBuffer
write chunk buffer =
    if ltb (buffer.max_bytes - length buffer.bytes) (length chunk)
    then (false, record buffer { exceeded = true })
    else (true, record buffer { bytes = buffer.bytes ++ chunk })

-- `serde_json::to_writer`: it stops at the first write that fails.
unfoldable pub write_all : List (List ℕ) → BoundedJsonBuffer → Bool × BoundedJsonBuffer
unfolding write
write_all [] buffer = (true, buffer)
write_all (chunk ∷ chunks) buffer =
    let written = write chunk buffer in
    elim written.0 [ true ↦ write_all chunks written.1 | false ↦ (false, written.1) ]

unfoldable pub to_vec_bounded : Writes → ℕ → Result (List ℕ) BoundedJsonError
unfolding write_all
to_vec_bounded writes max_bytes =
    let written =
      write_all writes.chunks (record { bytes = []; max_bytes = max_bytes; exceeded = false }) in
    elim written.0 [
      | true ↦ if writes.succeeds then ok written.1.bytes else err BoundedJsonError.serialize
      | false ↦
          if written.1.exceeded
          then err BoundedJsonError.too_large
          else err BoundedJsonError.serialize
    ]
