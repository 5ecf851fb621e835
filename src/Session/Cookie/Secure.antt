-- ===== src/Session/Cookie/Secure.antt =====
-- The policy that the cookie configurations of crates/rustee-auth-session/src/model/cookie.rs keep.
use rustee_web_framework.Prelude.{
  ℕ, ◌≤◌, ◌≡◌, ◌≢◌, ◌↔◌, ◌⊎◌, ◌||◌, All, refl, sym, ◌∙◌, subst, inl, inr, Bool, true, false, not,
  ◌&&◌, List, [], ◌∷◌, arith, ◌==◌, Bool-cases,
}
use rustee_web_framework.Prelude.Result.{ok, err, bind-eq-ok}
use rustee_web_framework.Text.{Text, byte_len, codes, has_char, is_ascii_alphanumeric}
use rustee_web_framework.Oidc.Values.Grammar.{IsAlphanumeric, all_iff, is_empty_iff}
use rustee_web_framework.Session.Cookie.{
  SameSite, is_none, SessionCookieConfig, CookieConfigError, valid_cookie_name, cookie_new,
  with_same_site, with_secure, Setting, same_site_call, secure_call, configure, configure_all,
}

-- RFC 9110, 5.6.2: the characters of a token.
abbrev pub IsTokenChar : ℕ → Type 0
IsTokenChar c =
    IsAlphanumeric c
    ⊎ ((c ≡ b'!')
        ⊎ (((b'#' ≤ c) × (c ≤ b'\''))
            ⊎ ((c ≡ b'*')
                ⊎ ((c ≡ b'+')
                    ⊎ ((c ≡ b'-')
                        ⊎ ((c ≡ b'.')
                            ⊎ (((b'^' ≤ c) × (c ≤ b'`')) ⊎ ((c ≡ b'|') ⊎ (c ≡ b'~')))))))))

IsTokenChar-iff :
    (c : ℕ)
    → ((is_ascii_alphanumeric c || has_char c (codes "!#$%&'*+-.^_`|~")) ≡ true) ↔ IsTokenChar c
IsTokenChar-iff c = ground arith

-- A configuration that a browser takes: its name is a token, and it is secure where it is for other
-- sites.
abbrev pub IsSound : SessionCookieConfig → Type 0
IsSound config =
    (config.name ≢ [])
    × (byte_len config.name ≤ 128)
    × All IsTokenChar config.name
    × (config.ttl_seconds ≢ 0)
    × ((is_none config.same_site ≡ true) → config.secure ≡ true)

valid_cookie_name-token :
    (name : Text)
    → valid_cookie_name name ≡ true
    → (name ≢ []) × (byte_len name ≤ 128) × All IsTokenChar name
unfolding valid_cookie_name
valid_cookie_name-token name valid =
    let (named, _) = all_iff _ IsTokenChar name IsTokenChar-iff in
    let (full, _) = is_empty_iff name in
    (full (ground (arith, valid)), ground (arith, valid), named (ground (arith, valid)))

cookie_new-IsSound :
    (name : Text) (ttl_seconds : ℕ) (config : SessionCookieConfig)
    → cookie_new name ttl_seconds ≡ ok config
    → IsSound config
unfolding cookie_new
cookie_new-IsSound name ttl_seconds config h = elim (Bool-cases (valid_cookie_name name)) [
  | inl valid ↦ elim (Bool-cases (ttl_seconds == 0)) [
    | inl zero_ttl ↦ absurd (ground arith)
    | inr positive ↦
        let made : (record {
          name = name;
          ttl_seconds = ttl_seconds;
          secure = true;
          same_site = SameSite.lax;
        }
            ≡ config) =
          ground (arith, h) in
        let (full, bound, token) = valid_cookie_name-token name valid in
        subst IsSound made (full, bound, token, (λ e. ground (arith, e)), λ _. refl)
  ]
  | inr invalid ↦ absurd (ground arith)
]

-- What a call asks for.
abbrev pub asked : Setting → SessionCookieConfig → SessionCookieConfig
asked (same_site_call same_site) config = record config { same_site = same_site }
asked (secure_call secure) config = record config { secure = secure }

abbrev pub is_insecure_none : SessionCookieConfig → Bool
is_insecure_none config = is_none config.same_site && not config.secure

-- A call on a configuration fails where what it asks for would send the cookie to other sites over
-- an insecure transport, always with the same error, and gives what it asks for everywhere else.
configure_iff :
    (setting : Setting) (config : SessionCookieConfig)
    → (is_insecure_none (asked setting config) ≡ true
        → configure setting config ≡ err CookieConfigError.same_site_none_requires_secure)
      × (is_insecure_none (asked setting config) ≡ false
          → configure setting config ≡ ok (asked setting config))
unfolding configure with_same_site with_secure
configure_iff (same_site_call same_site) config = (λ h. simp h refl, λ h. simp h refl)
configure_iff (secure_call secure) config = elim (Bool-cases (is_none config.same_site)) [
  | inl across ↦ (λ h. ground (arith, across, h), λ h. ground (arith, across, h))
  | inr within ↦ (λ h. ground (arith, within, h), λ h. ground (arith, within, h))
]

asked-IsSound :
    (setting : Setting) (config : SessionCookieConfig)
    → IsSound config
    → is_insecure_none (asked setting config) ≡ false
    → IsSound (asked setting config)
asked-IsSound (same_site_call same_site) config (full, bound, token, positive, _) h =
    (full, bound, token, positive, λ across. ground (arith, across, h))
asked-IsSound (secure_call secure) config (full, bound, token, positive, _) h =
    (full, bound, token, positive, λ across. ground (arith, across, h))

configure-IsSound :
    (setting : Setting) (config changed : SessionCookieConfig)
    → IsSound config
    → configure setting config ≡ ok changed
    → IsSound changed
configure-IsSound setting config changed sound h =
    let (fails, gives) = configure_iff setting config in
    elim (Bool-cases (is_insecure_none (asked setting config))) [
      | inl insecure ↦ let e = fails insecure in absurd (cc)
      | inr secured ↦
          let e : (ok (asked setting config) ≡ ok changed) = sym (gives secured) ∙ h in
          let same : (asked setting config ≡ changed) = cc in
          subst IsSound same (asked-IsSound setting config sound secured)
    ]

configure_all-IsSound :
    (settings : List Setting) (config changed : SessionCookieConfig)
    → IsSound config
    → configure_all settings config ≡ ok changed
    → IsSound changed
unfolding configure_all
configure_all-IsSound [] config changed sound h =
    let same : (config ≡ changed) = cc in subst IsSound same sound
configure_all-IsSound (setting ∷ settings) config changed sound h =
    let (middle, first, rest) =
      bind-eq-ok (configure setting config) (λ c. configure_all settings c) h in
    configure_all-IsSound settings middle changed
      (configure-IsSound setting config middle sound first) rest

-- A configuration made by `new` and any chain of `with_same_site` and `with_secure` has a name of 1
-- to 128 bytes, all of them characters of a token of RFC 9110, and a lifetime that is not zero, and
-- it is secure if its `SameSite` is `None`.
pub cookie_new-configure_all :
    (name : Text) (ttl_seconds : ℕ) (settings : List Setting) (config changed : SessionCookieConfig)
    → cookie_new name ttl_seconds ≡ ok config
    → configure_all settings config ≡ ok changed
    → IsSound changed
cookie_new-configure_all name ttl_seconds settings config changed made h =
    configure_all-IsSound settings config changed (cookie_new-IsSound name ttl_seconds config made)
      h
