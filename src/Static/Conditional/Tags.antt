-- ===== src/Static/Conditional/Tags.antt =====
-- crates/rustee-static/src/response.rs: the entity tags that a request names.
use rustee_web_framework.Prelude.{
  ◌==◌, ==_iff, Bool-cases, subst, ℕ, ◌≡◌, refl, ◌↔◌, ◌⊎◌, inl, inr, Bool, true, false, Option,
  some, List, [], ◌∷◌, ◌++◌, arith, any, Any, any-Any, is_empty, Option-cases, ◌∙◌, sym, ap,
}
use rustee_web_framework.Text.{Text, eqb, eqb_iff, codes, strip_prefix, strip_prefix_iff}
use rustee_web_framework.Text.Trim.{trim}
use rustee_web_framework.Text.Split.{
  split, split_first, Lacks, split_first-Lacks, split_first-append,
}
use rustee_web_framework.Static.Header.{HeaderValue, CacheValidators}
use rustee_web_framework.Static.Conditional.{
  strip_weak_prefix, weak_etag_matches, tag_matches, value_matches, match_tags, if_none_match,
  is_not_modified,
}

-- RFC 9110, 5.6.1: a text is the list of these parts, separated by commas.
pub data Lists : Text → List Text → Type 0 where
  one : (part : Text) → Lacks b',' part → Lists part (part ∷ [])
  more :
      (part rest : Text) (parts : List Text)
      → Lacks b',' part
      → Lists rest parts
      → Lists (part ++ b',' ∷ rest) (part ∷ parts)

Lists-cons :
    (c : ℕ) (s part : Text) (parts : List Text)
    → (c == b',') ≡ false
    → Lists s (part ∷ parts)
    → Lists (c ∷ s) ((c ∷ part) ∷ parts)
Lists-cons c s part parts away (one _ lacks) = one (c ∷ part) (away, lacks)
Lists-cons c s part parts away (more _ rest _ lacks listed) =
    more (c ∷ part) rest parts (away, lacks) listed

split-Lists : (s : Text) → Lists s (split b',' s)
unfolding split split_first
split-Lists [] = one [] tt
split-Lists (c ∷ s) = elim (Bool-cases (c == b',')) [
  | inl at ↦ rw (at, (==_iff c b',').0 at) (more [] s (split b',' s) tt (split-Lists s))
  | inr away ↦ rw away (Lists-cons c s _ _ away (split-Lists s))
]

Lists-split : (s : Text) (parts : List Text) → Lists s parts → split b',' s ≡ parts
unfolding split
Lists-split s parts (one part lacks) = rw (split_first-Lacks b',' part lacks) refl
Lists-split s parts (more part rest others lacks listed) =
    rw (split_first-append b',' part rest lacks)
      (ap (λ ps. part ∷ ps) (Lists-split rest others listed))

-- RFC 9110, 8.8.3: a tag is weak, with this opaque tag behind its mark.
abbrev pub IsWeak : Text → Text → Type 0
IsWeak tag opaque = trim tag ≡ codes "W/" ++ opaque

-- The opaque tag of a tag, weak or not.
abbrev pub Opaque : Text → Text → Type 0
Opaque tag opaque =
    IsWeak tag opaque ⊎ ((trim tag ≡ opaque) × (¬ ((other : Text) × IsWeak tag other)))

strip_weak_prefix_iff : (tag opaque : Text) → (strip_weak_prefix tag ≡ opaque) ↔ Opaque tag opaque
unfolding strip_weak_prefix
strip_weak_prefix_iff tag opaque = elim (Option-cases (strip_prefix (codes "W/") (trim tag))) [
  | inl strong ↦
      let apart : (¬ ((other : Text) × IsWeak tag other)) =
        λ (other, weak). cc ((strip_prefix_iff (codes "W/") (trim tag) other).1 weak) in
      let left : (strip_weak_prefix tag ≡ trim tag) = rw (strong, strip_weak_prefix) refl in
      (
        λ e. inr (sym left ∙ e, apart),
        elim [ inl weak ↦ absurd (apart (opaque, weak)) | inr (same, _) ↦ left ∙ same ],
      )
  | inr (rest, stripped) ↦
      let weak : IsWeak tag rest = (strip_prefix_iff (codes "W/") (trim tag) rest).0 stripped in
      let left : (strip_weak_prefix tag ≡ rest) = rw (stripped, strip_weak_prefix) refl in
      (
        λ e. inl (subst (IsWeak tag) (sym left ∙ e) weak),
        elim [
          | inl other ↦
              let again = (strip_prefix_iff (codes "W/") (trim tag) opaque).1 other in
              let same : (rest ≡ opaque) = cc in left ∙ same
          | inr (_, apart) ↦ absurd (apart (rest, weak))
        ],
      )
]

-- RFC 9110, 8.8.3.2, weak comparison: the opaque tags are equal, whether either tag is weak or not.
abbrev pub Names : Text → Text → Type 0
Names current candidate =
    (candidate ≡ codes "*") ⊎ ((opaque : Text) × Opaque candidate opaque × Opaque current opaque)

tag_matches-Names :
    (current candidate : Text) → (tag_matches current candidate ≡ true) ↔ Names current candidate
unfolding weak_etag_matches
tag_matches-Names current candidate =
    let (equal, equals) = eqb_iff (strip_weak_prefix candidate) (strip_weak_prefix current) in
    let (star, starred) = eqb_iff candidate (codes "*") in
    elim (Bool-cases (eqb candidate (codes "*"))) [
      | inl any_tag ↦ (λ _. inl (star any_tag), λ _. ground (arith, any_tag))
      | inr a_tag ↦ (
        λ h. inr (
          strip_weak_prefix current,
          (strip_weak_prefix_iff candidate _).0 (equal (ground (arith, a_tag, h))),
          (strip_weak_prefix_iff current _).0 refl,
        ),
        elim [
          | inl any_tag ↦ absurd (ground (arith, a_tag, starred any_tag))
          | inr (opaque, asked, held) ↦
              let same =
                (strip_weak_prefix_iff candidate opaque).1 asked
                ∙ sym ((strip_weak_prefix_iff current opaque).1 held) in
              ground (arith, a_tag, equals same)
        ],
      )
    ]

-- The value is readable, and a member of its list, without the white space around it, names the tag.
abbrev pub Asks : Text → HeaderValue → Type 0
Asks current value =
    (text : Text) × (value.text ≡ some text)
    × (parts : List Text) × Lists text parts
    × Any (λ part. Names current (trim part)) parts

Any-both {ℓ} :
    {A : Type ℓ} (P Q : A → Type 0) (xs : List A) → ((x : A) → P x ↔ Q x) → Any P xs ↔ Any Q xs
Any-both P Q [] h = (λ k. k, λ k. k)
Any-both P Q (x ∷ xs) h = (
  elim [ inl p ↦ inl ((h x).0 p) | inr k ↦ inr ((Any-both P Q xs h).0 k) ],
  elim [ inl q ↦ inl ((h x).1 q) | inr k ↦ inr ((Any-both P Q xs h).1 k) ],
)

any_iff {ℓ} :
    {A : Type ℓ} (p : A → Bool) (Q : A → Type 0) (xs : List A)
    → ((x : A) → (p x ≡ true) ↔ Q x)
    → (any p xs ≡ true) ↔ Any Q xs
any_iff p Q xs h =
    let (to, from) = any-Any p xs in
    let (there, back) = Any-both (λ x. p x ≡ true) Q xs h in (λ e. there (to e), λ k. from (back k))

value_matches-Asks :
    (current : Text) (value : HeaderValue)
    → (value_matches current value ≡ true) ↔ Asks current value
value_matches-Asks current value = elim (Option-cases value.text) [
  | inl unreadable ↦ (
    λ h. absurd (ground (arith, unreadable, h)),
    λ (text, readable, _, _, _). absurd (ground (arith, unreadable, readable)),
  )
  | inr (text, readable) ↦
      let (to, from) =
        any_iff (λ part. tag_matches current (trim part)) (λ part. Names current (trim part))
          (split b',' text) (λ part. tag_matches-Names current (trim part)) in
      (
        λ h. (
          text,
          readable,
          split b',' text,
          split-Lists text,
          to (rw (readable, value_matches) at h),
        ),
        λ (other, given, parts, listed, named).
            let same : (other ≡ text) = ground (arith, readable, given) in
            let cut : (split b',' text ≡ parts) =
              subst (λ t. split b',' t ≡ parts) same (Lists-split other parts listed) in
            rw (readable, value_matches)
              (from (subst (λ ps. Any (λ part. Names current (trim part)) ps) (sym cut) named)),
      )
]

match_tags_read :
    (values : List HeaderValue) (validators : CacheValidators) (current : Text)
    → validators.etag.text ≡ some current
    → match_tags values (some validators) ≡ any (value_matches current) values
unfolding match_tags
match_tags_read values validators current e = cc

-- Where a request has an `If-None-Match` header and the file has a readable entity tag, the file is
-- answered as not modified exactly when a value of that header is a comma-separated list in which
-- some member is "*", or has the same opaque tag as the file's tag, whether either of the two is
-- marked as weak or not; a date in `If-Modified-Since` plays no part.
pub is_not_modified_iff :
    (parse_http_date : Text → Option ℕ) (none_match modified_since : List HeaderValue)
    (validators : CacheValidators) (current : Text)
    → is_empty none_match ≡ false
    → validators.etag.text ≡ some current
    → (is_not_modified parse_http_date none_match modified_since (some validators) ≡ true)
      ↔ Any (Asks current) none_match
unfolding is_not_modified if_none_match
is_not_modified_iff parse_http_date [] modified_since validators current h e = absurd (ground arith)
is_not_modified_iff parse_http_date (value ∷ values) modified_since validators current h e =
    let same = match_tags_read (value ∷ values) validators current e in
    let (to, from) =
      any_iff (value_matches current) (Asks current) (value ∷ values)
        (value_matches-Asks current) in
    (λ m. to (sym same ∙ m), λ k. same ∙ from k)
