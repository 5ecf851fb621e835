-- ===== src/TrustedProxy/Forwarded.antt =====
-- crates/rustee-middleware/src/trusted_proxy/forwarded.rs: the two families of forwarded headers. A
-- header is the list of its values, each with the result of `HeaderValue::to_str`; the parsers
-- `IpAddr::from_str` and `parse::<Authority>` of other crates are parameters.
pub mod Client
use rustee_web_framework.Prelude.{
  ℕ, suc, ◌+◌, ◌-◌, ◌≡◌, Bool, true, false, not, ◌&&◌, ◌||◌, Option, none, some, List, [], ◌∷◌,
  ◌++◌, reverse, leb, ltb, ◌==◌, if◌then◌else◌, any, length, is_empty, take, map,
}
use rustee_web_framework.Prelude.Result.{Result, ok, err, ◌>>=◌}
use rustee_web_framework.Text.{Text, eqb, codes, byte_len, has_char, lowercase}
use rustee_web_framework.Text.Trim.{trim}
use rustee_web_framework.Text.Split.{split, split_once}
use rustee_web_framework.TrustedProxy.Policy.{IpAddr, TrustedProxyPolicy, trusts}

abbrev pub max_forwarded_header_bytes : ℕ
max_forwarded_header_bytes = 2048

-- The error `()`.
abbrev pub Invalid : Type 0
Invalid = Unit {0}

-- What the module takes from `std::net` and from `http::uri`.
pub record Parsers : Type 0 where
  pub ip_from_str : Text → Option IpAddr
  pub is_authority : Text → Bool

pub record ForwardedContext : Type 0 where
  pub client_ip : IpAddr
  pub scheme : Option Text
  pub host : Option Text

pub record ForwardedElement : Type 0 where
  pub client_ip : IpAddr
  pub scheme : Option Text
  pub host : Option Text

-- The headers that the two families read.
pub record Headers : Type 0 where
  pub forwarded : List (Option Text)
  pub x_forwarded_for : List (Option Text)
  pub x_forwarded_proto : List (Option Text)
  pub x_forwarded_host : List (Option Text)

abbrev pub is_some {ℓ} : {A : Type ℓ} → Option A → Bool
is_some none = false
is_some (some a) = true

abbrev pub ok_or {ℓ} : {A : Type ℓ} → Option A → Result A Invalid
ok_or none = err tt
ok_or (some a) = ok a

-- `collect::<Result<Vec<_>, _>>()`.
unfoldable pub collect {ℓ κ} :
    {A : Type ℓ} {B : Type κ} → (A → Result B Invalid) → List A → Result (List B) Invalid
collect f [] = ok []
collect f (x ∷ xs) =
    let rest = collect f xs in
    elim (f x) [ err e ↦ err e | ok y ↦ elim rest [ err e ↦ err e | ok ys ↦ ok (y ∷ ys) ] ]

-- `map(f).transpose()?`.
abbrev pub transpose {ℓ κ} :
    {A : Type ℓ} {B : Type κ} → (A → Result B Invalid) → Option A → Result (Option B) Invalid
transpose f none = ok none
transpose f (some x) = f x >>= λ y. ok (some y)

unfoldable pub single_header : List (Option Text) → Result (Option (Option Text)) Invalid
single_header [] = ok none
single_header (value ∷ []) = ok (some value)
single_header (value ∷ other ∷ values) = err tt

unfoldable pub bounded_header_text : Option Text → Result Text Invalid
bounded_header_text none = err tt
bounded_header_text (some value) =
    if leb (byte_len value) max_forwarded_header_bytes then ok value else err tt

-- The loop over the chain from its right end: trusted hops are passed over, up to the bound.
unfoldable pub first_after_hops {ℓ} :
    {A : Type ℓ} → (A → IpAddr) → TrustedProxyPolicy → ℕ → List A → Option A
unfolding trusts
first_after_hops ip policy trusted_hops [] = none
first_after_hops ip policy trusted_hops (x ∷ xs) =
    let rest = first_after_hops ip policy (suc trusted_hops) xs in
    if ltb trusted_hops policy.forwarded_chain_hops && trusts policy (ip x) then rest else some x

unfoldable pub select_client_ip : TrustedProxyPolicy → List IpAddr → Result IpAddr Invalid
unfolding first_after_hops
select_client_ip policy clients =
    ok_or (first_after_hops (λ client. client) policy 0 (reverse clients))

abbrev pub is_scheme : Text → Bool
is_scheme value = eqb value (codes "http") || eqb value (codes "https")

unfoldable pub parse_x_forwarded_scheme : Option Text → Result Text Invalid
unfolding bounded_header_text
parse_x_forwarded_scheme value =
    bounded_header_text value >>= λ text. if is_scheme text then ok text else err tt

-- The variables of the loop of `parse_forwarded_element`.
pub record Partial : Type 0 where
  pub client_ip : Option IpAddr
  pub scheme : Option Text
  pub host : Option Text

abbrev pub contains_any : List ℕ → Text → Bool
contains_any chars value = any (λ c. has_char c value) chars

-- `elements.last()`.
abbrev pub last {ℓ} : {A : Type ℓ} → List A → Option A
last [] = none
last (x ∷ []) = some x
last (x ∷ y ∷ xs) = last (y ∷ xs)

module _ (parsers : Parsers) where
  unfoldable pub parse_x_forwarded_host : Option Text → Result Text Invalid
  unfolding bounded_header_text
  parse_x_forwarded_host value = bounded_header_text value >>= λ text.
      if not (contains_any (b',' ∷ b' ' ∷ b'"' ∷ b'@' ∷ []) text) && parsers.is_authority text
      then ok text
      else err tt

  -- One item `name=value` of an element.
  unfoldable pub element_pair : Text → Text → Partial → Result Partial Invalid
  element_pair name value found =
      if eqb name (codes "for") && not (is_some found.client_ip)
      then (ok_or (parsers.ip_from_str value) >>= λ client_ip.
          ok (record found { client_ip = some client_ip }))
      else if eqb name (codes "proto") && (not (is_some found.scheme) && is_scheme value)
      then ok (record found { scheme = some value })
      else if eqb name (codes "host")
          && (not (is_some found.host) && (not (has_char b'@' value) && parsers.is_authority value))
      then ok (record found { host = some value })
      else err tt

  unfoldable pub element_item : Text → Partial → Result Partial Invalid
  unfolding element_pair
  element_item item found = elim (split_once b'=' (trim item)) [
    | none ↦ err tt
    | some (name, value) ↦
        if is_empty value || contains_any (b' ' ∷ b'"' ∷ []) value
        then err tt
        else element_pair (lowercase name) value found
  ]

  unfoldable pub element_items : List Text → Partial → Result Partial Invalid
  unfolding element_item
  element_items [] found = ok found
  element_items (item ∷ items) found = element_item item found >>= element_items items

  unfoldable pub parse_forwarded_element : Text → Result ForwardedElement Invalid
  unfolding element_items
  parse_forwarded_element value =
      element_items (split b';' value) (record { client_ip = none; scheme = none; host = none })
      >>= λ found. ok_or found.client_ip >>= λ client_ip.
          ok (record { client_ip = client_ip; scheme = found.scheme; host = found.host })

  -- The checks and the selection of `parse_forwarded`, on the parsed elements.
  unfoldable pub forwarded_from :
      TrustedProxyPolicy → List ForwardedElement → Result ForwardedContext Invalid
  forwarded_from policy elements =
      if is_empty elements || ltb (policy.forwarded_chain_hops + 1) (length elements)
      then err tt
      else if any (λ element. is_some element.scheme || is_some element.host)
          (take (length elements - 1) elements)
      then err tt
      else (ok_or (last elements) >>= λ edge.
          ok_or (first_after_hops (λ element. element.client_ip) policy 0 (reverse elements))
          >>= λ element.
              ok (record { client_ip = element.client_ip; scheme = edge.scheme; host = edge.host }))

  unfoldable pub parse_forwarded :
      TrustedProxyPolicy → Option Text → Result ForwardedContext Invalid
  parse_forwarded policy value = bounded_header_text value >>= λ text.
      collect (λ element. parse_forwarded_element (trim element)) (split b',' text)
      >>= forwarded_from policy

  unfoldable pub parse_forwarded_headers :
      TrustedProxyPolicy → Headers → Result (Option ForwardedContext) Invalid
  parse_forwarded_headers policy headers =
      single_header headers.forwarded >>= transpose (parse_forwarded policy)

  -- `parse_x_forwarded_headers` once `X-Forwarded-For` is there.
  unfoldable pub x_forwarded_from :
      TrustedProxyPolicy
      → Option Text
      → Option (Option Text)
      → Option (Option Text)
      → Result (Option ForwardedContext) Invalid
  x_forwarded_from policy client scheme host = bounded_header_text client >>= λ text.
      collect (λ value. ok_or (parsers.ip_from_str (trim value))) (split b',' text) >>= λ clients.
      if is_empty clients || ltb (policy.forwarded_chain_hops + 1) (length clients)
      then err tt
      else (select_client_ip policy clients >>= λ client_ip.
          transpose parse_x_forwarded_scheme scheme >>= λ parsed_scheme.
          transpose parse_x_forwarded_host host >>= λ parsed_host.
          ok (some (record { client_ip = client_ip; scheme = parsed_scheme; host = parsed_host })))

  unfoldable pub parse_x_forwarded_headers :
      TrustedProxyPolicy → Headers → Result (Option ForwardedContext) Invalid
  parse_x_forwarded_headers policy headers = single_header headers.x_forwarded_for >>= λ client.
      single_header headers.x_forwarded_proto >>= λ scheme.
      single_header headers.x_forwarded_host >>= λ host. elim client [
        | none ↦ if not (is_some scheme) && not (is_some host) then ok none else err tt
        | some value ↦ x_forwarded_from policy value scheme host
      ]
