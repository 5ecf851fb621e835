-- ===== src/Static/Multipart.antt =====
-- crates/rustee-static/src/response/multipart.rs: the body of a response with several ranges, and
-- its length. The file is its bytes; a failure to open or read it is not modelled, and neither is
-- the division of a range into chunks of 16 KiB, of which only the concatenation is kept.
pub mod Length
use rustee_web_framework.Prelude.{
  ℕ, zero, suc, ◌+◌, ◌≡◌, Option, none, some, List, [], ◌∷◌, ◌++◌, ltb, if◌then◌else◌, length, take,
  drop,
}
use rustee_web_framework.Text.{Text, codes, byte_len}
use rustee_web_framework.Text.Number.{decimal, u64_bound}
use rustee_web_framework.Static.Range.{ByteRange, range_len}

abbrev crlf : Text
crlf = 13 ∷ 10 ∷ []

unfoldable pub multipart_part_header : Text → Text → ByteRange → ℕ → Text
multipart_part_header boundary content_type range full_length =
    codes "--"
    ++ (boundary
        ++ (crlf
            ++ (codes "Content-Type: "
                ++ (content_type
                    ++ (crlf
                        ++ (codes "Content-Range: bytes "
                            ++ (decimal range.start
                                ++ (codes "-"
                                    ++ (decimal range.end
                                        ++ (codes "/"
                                            ++ (decimal full_length ++ (crlf ++ crlf))))))))))))

unfoldable pub multipart_closing_boundary : Text → Text
multipart_closing_boundary boundary = codes "--" ++ (boundary ++ (codes "--" ++ crlf))

-- `u64::checked_add`.
unfoldable pub checked_add : ℕ → ℕ → Option ℕ
checked_add a b = if ltb (a + b) u64_bound then some (a + b) else none

infixl 5 ◌>>=◌
abbrev ◌>>=◌ {ℓ κ} : {A : Type ℓ} {B : Type κ} → Option A → (A → Option B) → Option B
none >>= f = none
some a >>= f = f a

-- The loop of `multipart_content_length`.
unfoldable pub content_length_from : Text → Text → List ByteRange → ℕ → ℕ → Option ℕ
unfolding checked_add
content_length_from boundary content_type [] full_length total = some total
content_length_from boundary content_type (range ∷ ranges) full_length total = do
  a ← checked_add total (byte_len (multipart_part_header boundary content_type range full_length))
  b ← checked_add a (range_len range)
  c ← checked_add b 2
  content_length_from boundary content_type ranges full_length c

unfoldable pub multipart_content_length : Text → Text → List ByteRange → ℕ → Option ℕ
unfolding content_length_from
multipart_content_length boundary content_type ranges full_length = do
  total ← content_length_from boundary content_type ranges full_length 0
  checked_add total (byte_len (multipart_closing_boundary boundary))

-- What the stream yields: a text, or bytes of the file.
pub data Chunk : Type 0 where
  text : Text → Chunk
  bytes : List ℕ → Chunk

unfoldable pub multipart_file_body : List ℕ → Text → Text → List ByteRange → ℕ → List Chunk
multipart_file_body file content_type boundary [] full_length =
    text (multipart_closing_boundary boundary) ∷ []
multipart_file_body file content_type boundary (range ∷ ranges) full_length =
    text (multipart_part_header boundary content_type range full_length)
    ∷ bytes (take (range_len range) (drop range.start file))
    ∷ text crlf
    ∷ multipart_file_body file content_type boundary ranges full_length
