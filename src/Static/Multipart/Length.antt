-- ===== src/Static/Multipart/Length.antt =====
-- crates/rustee-static/src/response/multipart.rs: the announced length of a body, and its size.
use rustee_web_framework.Prelude.{
  ℕ, ◌+◌, ◌-◌, ◌≡◌, refl, Option, none, some, List, [], ◌∷◌, length, take, drop, arith, All,
  length-take, length-drop,
}
use rustee_web_framework.Text.{Text, byte_len}
use rustee_web_framework.Static.Range.{ByteRange, range_len}
use rustee_web_framework.Static.Range.Bounds.{Within}
use rustee_web_framework.Static.Multipart.{
  multipart_part_header, multipart_closing_boundary, checked_add, content_length_from,
  multipart_content_length, Chunk, text, bytes, multipart_file_body, crlf, ◌>>=◌,
}

-- The bytes of a body.
abbrev pub size : List Chunk → ℕ
size [] = 0
size (text t ∷ chunks) = byte_len t + size chunks
size (bytes b ∷ chunks) = length b + size chunks

length-slice :
    (file : List ℕ) (range : ByteRange)
    → Within (length file) range
    → length (take (range_len range) (drop range.start file)) ≡ range_len range
unfolding range_len
length-slice file range h = omega (
  arith,
  length-take {0} (range.end - range.start + 1) (drop range.start file),
  length-drop {0} range.start file,
)

checked_add-eq : (a b c : ℕ) → checked_add a b ≡ some c → c ≡ a + b
unfolding checked_add
checked_add-eq a b c h = ground arith

bind-eq-some {ℓ κ} :
    {A : Type ℓ} {B : Type κ} (m : Option A) (f : A → Option B) {b : B}
    → (m >>= f) ≡ some b
    → (a : A) × (m ≡ some a) × (f a ≡ some b)
bind-eq-some none f e = cc
bind-eq-some (some a) f e = (a, refl, e)

crlf_len : byte_len crlf ≡ 2
unfolding byte_len
crlf_len = refl

size-from :
    (file : List ℕ) (content_type boundary : Text) (ranges : List ByteRange) (n total result : ℕ)
    → All (Within (length file)) ranges
    → content_length_from boundary content_type ranges n total ≡ some result
    → total + size (multipart_file_body file content_type boundary ranges n)
      ≡ result + byte_len (multipart_closing_boundary boundary)
unfolding content_length_from multipart_file_body
size-from file content_type boundary [] n total result h e = ground arith
size-from file content_type boundary (range ∷ ranges) n total result (w, h) e =
    let (a, ea, e') =
      bind-eq-some
        (checked_add total (byte_len (multipart_part_header boundary content_type range n))) _ e in
    let (b, eb, e'') = bind-eq-some (checked_add a (range_len range)) _ e' in
    let (c, ec, rest) = bind-eq-some (checked_add b 2) _ e'' in
    omega (
      arith,
      checked_add-eq total (byte_len (multipart_part_header boundary content_type range n)) a ea,
      checked_add-eq a (range_len range) b eb,
      checked_add-eq b 2 c ec,
      length-slice file range w,
      size-from file content_type boundary ranges n c result h rest,
      crlf_len,
    )

-- Where `multipart_content_length` gives a length, the body for the same ranges of the file has
-- exactly that many bytes.
pub size-multipart_file_body :
    (file : List ℕ) (content_type boundary : Text) (ranges : List ByteRange) (n result : ℕ)
    → All (Within (length file)) ranges
    → multipart_content_length boundary content_type ranges n ≡ some result
    → size (multipart_file_body file content_type boundary ranges n) ≡ result
unfolding multipart_content_length
size-multipart_file_body file content_type boundary ranges n result h e =
    let (total, e', e'') =
      bind-eq-some (content_length_from boundary content_type ranges n 0) _ e in
    omega (
      arith,
      size-from file content_type boundary ranges n 0 total h e',
      checked_add-eq total (byte_len (multipart_closing_boundary boundary)) result e'',
    )
