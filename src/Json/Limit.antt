-- ===== src/Json/Limit.antt =====
-- What crates/rustee-json/src/lib.rs writes, against the limit.
use rustee_web_framework.Prelude.{
  ℕ, ◌+◌, ◌-◌, ◌≤◌, ◌<◌, ◌≡◌, refl, ap, ◌∙◌, inl, inr, Bool, true, false, List, [], ◌∷◌, ◌++◌,
  arith, ltb, length, length-append, append_assoc, append-nil, Bool-cases, if◌then◌else◌,
}
use rustee_web_framework.Prelude.Result.{Result, ok, err}
use rustee_web_framework.Json.{
  BoundedJsonError, Writes, BoundedJsonBuffer, write, write_all, to_vec_bounded,
}

-- All that the serializer writes.
abbrev pub concat : List (List ℕ) → List ℕ
concat [] = []
concat (chunk ∷ chunks) = chunk ++ concat chunks

-- The result that the limit allows: all the bytes if they fit, and an error if not.
abbrev pub limited : Writes → ℕ → Result (List ℕ) BoundedJsonError
limited writes max_bytes =
    if ltb max_bytes (length (concat writes.chunks))
    then err BoundedJsonError.too_large
    else if writes.succeeds
    then ok (concat writes.chunks)
    else err BoundedJsonError.serialize

split_pair : (a b : Bool × BoundedJsonBuffer) → a ≡ b → (a.0 ≡ b.0) × (a.1 ≡ b.1)
split_pair a b h = (ap (λ r. r.0) h, ap (λ r. r.1) h)

write_all-written :
    (chunk : List ℕ) (chunks : List (List ℕ)) (buffer next : BoundedJsonBuffer)
    → write chunk buffer ≡ (true, next)
    → write_all (chunk ∷ chunks) buffer ≡ write_all chunks next
unfolding write_all
write_all-written chunk chunks buffer next h =
    let (done, left) = split_pair (write chunk buffer) (true, next) h in
    rw (write_all, done) (ap (λ b. write_all chunks b) left)

write_all-refused :
    (chunk : List ℕ) (chunks : List (List ℕ)) (buffer next : BoundedJsonBuffer)
    → write chunk buffer ≡ (false, next)
    → write_all (chunk ∷ chunks) buffer ≡ (false, next)
unfolding write_all
write_all-refused chunk chunks buffer next h =
    let (refused, left) = split_pair (write chunk buffer) (false, next) h in
    rw (write_all, refused) (ap (λ b. (false, b)) left)

write_all-fits :
    (chunks : List (List ℕ)) (bytes : List ℕ) (max_bytes : ℕ)
    → length bytes + length (concat chunks) ≤ max_bytes
    → write_all chunks (record { bytes = bytes; max_bytes = max_bytes; exceeded = false })
      ≡ (true, record { bytes = bytes ++ concat chunks; max_bytes = max_bytes; exceeded = false })
unfolding write_all write
write_all-fits [] bytes max_bytes h = rw (append-nil bytes) refl
write_all-fits (chunk ∷ chunks) bytes max_bytes h =
    let parts = length-append chunk (concat chunks) in
    let grown = length-append bytes chunk in
    let room : (ltb (max_bytes - length bytes) (length chunk) ≡ false) = ground (arith, h, parts) in
    let rest = write_all-fits chunks (bytes ++ chunk) max_bytes (omega (arith, h, parts, grown)) in
    let written =
      write_all-written chunk chunks
        (record { bytes = bytes; max_bytes = max_bytes; exceeded = false })
        (record { bytes = bytes ++ chunk; max_bytes = max_bytes; exceeded = false })
        (simp room refl) in
    written
    ∙ rest
    ∙ ap (λ b. (true, record { bytes = b; max_bytes = max_bytes; exceeded = false }))
        (append_assoc bytes chunk (concat chunks))

write_all-exceeds :
    (chunks : List (List ℕ)) (bytes : List ℕ) (max_bytes : ℕ)
    → length bytes ≤ max_bytes
    → max_bytes < length bytes + length (concat chunks)
    → ((write_all chunks (record { bytes = bytes; max_bytes = max_bytes; exceeded = false })).0
        ≡ false)
      × ((write_all chunks
            (record { bytes = bytes; max_bytes = max_bytes; exceeded = false })).1.exceeded
          ≡ true)
unfolding write_all write
write_all-exceeds [] bytes max_bytes b h = absurd (omega (arith, b, h))
write_all-exceeds (chunk ∷ chunks) bytes max_bytes b h =
    let parts = length-append chunk (concat chunks) in
    let grown = length-append bytes chunk in
    elim (Bool-cases (ltb (max_bytes - length bytes) (length chunk))) [
      | inl full ↦
          let refused =
            write_all-refused chunk chunks
              (record { bytes = bytes; max_bytes = max_bytes; exceeded = false })
              (record { bytes = bytes; max_bytes = max_bytes; exceeded = true }) (simp full refl) in
          (ap (λ r. r.0) refused, ap (λ r. r.1.exceeded) refused)
      | inr room ↦
          let rest =
            write_all-exceeds chunks (bytes ++ chunk) max_bytes (ground (arith, room, grown, b))
              (omega (arith, h, parts, grown)) in
          let written =
            write_all-written chunk chunks
              (record { bytes = bytes; max_bytes = max_bytes; exceeded = false })
              (record { bytes = bytes ++ chunk; max_bytes = max_bytes; exceeded = false })
              (simp room refl) in
          (ap (λ r. r.0) written ∙ rest.0, ap (λ r. r.1.exceeded) written ∙ rest.1)
    ]

-- The bounded buffer changes nothing but the limit: a value whose JSON fits is written whole, one
-- whose JSON is longer is too large, and the serializer's own failure shows only within the limit.
pub to_vec_bounded-limited :
    (writes : Writes) (max_bytes : ℕ) → to_vec_bounded writes max_bytes ≡ limited writes max_bytes
unfolding to_vec_bounded
to_vec_bounded-limited writes max_bytes =
    elim (Bool-cases (ltb max_bytes (length (concat writes.chunks)))) [
      | inl long ↦
          let (failed, exceeded) =
            write_all-exceeds writes.chunks [] max_bytes (omega arith) (ground (arith, long)) in
          rw (to_vec_bounded, failed, exceeded, long) refl
      | inr short ↦
          let whole = write_all-fits writes.chunks [] max_bytes (ground (arith, short)) in
          let (fits, left) =
            split_pair
              (write_all writes.chunks
                (record { bytes = []; max_bytes = max_bytes; exceeded = false }))
              (
                true,
                record { bytes = concat writes.chunks; max_bytes = max_bytes; exceeded = false },
              )
              whole in
          rw (to_vec_bounded, fits, short)
            (ap (λ b. if writes.succeeds then ok b.bytes else err BoundedJsonError.serialize) left)
    ]
