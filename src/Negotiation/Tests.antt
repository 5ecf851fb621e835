-- ===== src/Negotiation/Tests.antt =====
-- Negotiation at concrete headers.
use rustee_web_framework.Text.Number.{parse_u16}
use rustee_web_framework.Text.Trim.{trim}
use rustee_web_framework.Text.Split.{split_once, split}
use rustee_web_framework.Prelude.{◌≡◌, refl, ◌↔◌, true, some, [], ◌∷◌, All, any, map}
use rustee_web_framework.Text.{starts_with, byte_len, eq_ignore_ascii_case, codes}
use rustee_web_framework.Text.{eq_ignore_ascii_case}
use rustee_web_framework.Text.Trim.{trim}
use rustee_web_framework.Text.Split.{split, split_once}
use rustee_web_framework.Negotiation.{
  item_quality, item_token, item_quality, item_token, scan_values, Values, PrecompressedEncoding,
  parse_quality, encoding_quality, encoding_token, preferred_precompressed_encodings, ResponseHead,
  is_compressible_response,
}
use rustee_web_framework.Negotiation.Coding.{ContentCoding, select_coding, quality_for}
use rustee_web_framework.Negotiation.Coding
use rustee_web_framework.Negotiation.Quality.{Weight, parse_quality_iff}
use rustee_web_framework.Negotiation.Choice.{to_coding, first, Refused, select_coding-first}
use rustee_web_framework.Negotiation.Highest.{items_of, names}
use rustee_web_framework.Negotiation.Accepted.{Accepts}

abbrev accepted : Values
accepted = some (codes "gzip;q=0.8, br;q=0.25") ∷ some (codes "*;q=0.1") ∷ []

gzip_first : select_coding true true accepted ≡ some ContentCoding.gzip
unfolding select_coding quality_for Coding.scan_values split eq_ignore_ascii_case Coding.item_token
    trim Coding.item_quality split_once byte_len parse_u16
gzip_first = refl

brotli_quality : encoding_quality accepted PrecompressedEncoding.brotli ≡ some 250
unfolding encoding_quality scan_values split eq_ignore_ascii_case item_token trim item_quality
    split_once byte_len parse_u16
brotli_quality = refl

parse_quality_iff_example : (parse_quality (codes "0.25") ≡ some 250) ↔ Weight (codes "0.25") 250
parse_quality_iff_example = parse_quality_iff (codes "0.25") 250

select_coding-first_example :
    (select_coding true true accepted
      ≡ first (map to_coding (preferred_precompressed_encodings accepted)))
    × ((encoding_quality accepted PrecompressedEncoding.brotli ≡ some 250)
        ↔ Accepts (codes "br") (items_of accepted) 250)
select_coding-first_example = select_coding-first accepted PrecompressedEncoding.brotli 250

abbrev refusing : Values
refusing = some (codes "br;q=0, *") ∷ []

named_refusing :
    any (names (encoding_token PrecompressedEncoding.brotli)) (items_of refusing) ≡ true
unfolding split eq_ignore_ascii_case item_token trim
named_refusing = refl

All-Refused : All (Refused (encoding_token PrecompressedEncoding.brotli)) (items_of refusing)
unfolding split item_quality item_token trim eq_ignore_ascii_case split_once
All-Refused = ((λ _. refl), ((λ e. cc), tt))

abbrev cookies : Values
cookies = some (codes "Cookie") ∷ []

abbrev page : ResponseHead
page = record {
  status = 200;
  content_encoding = [];
  content_range = [];
  cache_control = some (codes "max-age=60") ∷ [];
  content_length = some (codes "1024") ∷ [];
  content_type = some (codes "Text/HTML; charset=utf-8") ∷ [];
}

page_compressible : is_compressible_response page ≡ true
unfolding is_compressible_response split eq_ignore_ascii_case trim starts_with
page_compressible = refl
