-- ===== src/Negotiation/Compressible.antt =====
-- What the compression layer leaves alone, and what it adds to `Vary`.
use rustee_web_framework.Prelude.{
  ◌≤◌, ◌<◌, ◌≡◌, ◌≢◌, ◌⊎◌, inl, inr, refl, sym, ap, append-nil, Bool, true, false, ◌||◌, none, some,
  List, [], ◌∷◌, ◌++◌, arith, is_empty, Bool-cases,
}
use rustee_web_framework.Text.{Text, eqb, codes, eq_ignore_ascii_case}
use rustee_web_framework.Text.Trim.{trim}
use rustee_web_framework.Text.Split.{split}
use rustee_web_framework.Negotiation.{
  Values, has_member, add_vary_accept_encoding, ResponseHead, is_compressible_response,
  cache_control_no_transform,
}

has_member-append :
    (p : Text → Bool) (xs ys : Values)
    → has_member p (xs ++ ys) ≡ (has_member p xs || has_member p ys)
has_member-append p [] ys = refl
has_member-append p (none ∷ xs) ys = has_member-append p xs ys
has_member-append p (some x ∷ xs) ys = ground (arith, has_member-append p xs ys)

abbrev pub names_encoding : Text → Bool
names_encoding field = eqb field (codes "*") || eq_ignore_ascii_case field (codes "accept-encoding")

-- The value that is added is found again.
added_found : has_member names_encoding (some (codes "Accept-Encoding") ∷ []) ≡ true
unfolding split trim eq_ignore_ascii_case
added_found = refl

kept :
    (vary : Values) → has_member names_encoding vary ≡ true → add_vary_accept_encoding vary ≡ vary
unfolding add_vary_accept_encoding
kept vary h = cc

grown :
    (vary : Values)
    → has_member names_encoding vary ≡ false
    → add_vary_accept_encoding vary ≡ vary ++ some (codes "Accept-Encoding") ∷ []
unfolding add_vary_accept_encoding
grown vary h = cc

-- `Vary` names the encoding afterwards, by `*` or by the field's name, its old values stay in front,
-- and adding the field again changes nothing.
add_vary_accept_encoding-names :
    (vary : Values)
    → (has_member names_encoding (add_vary_accept_encoding vary) ≡ true)
      × ((added : Values) × (add_vary_accept_encoding vary ≡ vary ++ added))
      × (add_vary_accept_encoding (add_vary_accept_encoding vary) ≡ add_vary_accept_encoding vary)
add_vary_accept_encoding-names vary =
    let added : Values = some (codes "Accept-Encoding") ∷ [] in
    elim (Bool-cases (has_member names_encoding vary)) [
      | inl there ↦
          let same = kept vary there in
          (rw same there, ([], rw same (sym (append-nil vary))), ap add_vary_accept_encoding same)
      | inr missing ↦
          let same = grown vary missing in
          let found : (has_member names_encoding (add_vary_accept_encoding vary) ≡ true) =
            rw (same, has_member-append names_encoding vary added, missing) added_found in
          (found, (added, same), kept (add_vary_accept_encoding vary) found)
    ]

is_empty_nil : {A : Type 0} (xs : List A) → is_empty xs ≡ true → xs ≡ []
is_empty_nil [] h = refl
is_empty_nil (x ∷ xs) h = cc

-- A response is left as it is when it has a coding or a range, when a cache control forbids the
-- transformation, and when its status has no body.
is_compressible_response-needs :
    (response : ResponseHead)
    → is_compressible_response response ≡ true
    → (response.content_encoding ≡ [])
      × (response.content_range ≡ [])
      × (cache_control_no_transform response.cache_control ≡ false)
      × (response.status ≢ 204)
      × (response.status ≢ 304)
      × ((response.status < 100) ⊎ (200 ≤ response.status))
unfolding is_compressible_response
is_compressible_response-needs response h =
    ground (arith, is_empty_nil response.content_encoding, is_empty_nil response.content_range)
