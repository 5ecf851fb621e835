-- ===== src/Session/Cookie.antt =====
-- crates/rustee-auth-session/src/model/cookie.rs: the cookie's configuration and its text.
-- `HeaderValue::from_str` on that text succeeds, as the source expects of a checked configuration.
pub mod Secure
use rustee_web_framework.Prelude.{
  ℕ, Bool, true, false, not, ◌&&◌, ◌||◌, List, [], ◌∷◌, ◌++◌, leb, ◌==◌, if◌then◌else◌, is_empty,
  all,
}
use rustee_web_framework.Prelude.Result.{Result, ok, err, ◌>>=◌}
use rustee_web_framework.Text.{Text, byte_len, codes, has_char, is_ascii_alphanumeric}
use rustee_web_framework.Text.Number.{decimal}

abbrev pub max_cookie_name_bytes : ℕ
max_cookie_name_bytes = 128

pub data SameSite : Type 0 where
  strict lax none : SameSite

unfoldable pub same_site_text : SameSite → Text
same_site_text SameSite.strict = codes "Strict"
same_site_text SameSite.lax = codes "Lax"
same_site_text SameSite.none = codes "None"

abbrev pub is_none : SameSite → Bool
is_none SameSite.strict = false
is_none SameSite.lax = false
is_none SameSite.none = true

pub record SessionCookieConfig : Type 0 where
  pub name : Text
  pub ttl_seconds : ℕ
  pub secure : Bool
  pub same_site : SameSite

pub data CookieConfigError : Type 0 where
  invalid_name zero_ttl same_site_none_requires_secure : CookieConfigError

unfoldable pub valid_cookie_name : Text → Bool
valid_cookie_name name =
    not (is_empty name)
    && leb (byte_len name) max_cookie_name_bytes
    && all (λ byte. is_ascii_alphanumeric byte || has_char byte (codes "!#$%&'*+-.^_`|~")) name

-- `SessionCookieConfig::new`.
unfoldable pub cookie_new : Text → ℕ → Result SessionCookieConfig CookieConfigError
cookie_new name ttl_seconds =
    if not (valid_cookie_name name)
    then err CookieConfigError.invalid_name
    else if ttl_seconds == 0
    then err CookieConfigError.zero_ttl
    else ok
        (record { name = name; ttl_seconds = ttl_seconds; secure = true; same_site = SameSite.lax })

unfoldable pub with_same_site :
    SameSite → SessionCookieConfig → Result SessionCookieConfig CookieConfigError
with_same_site same_site config =
    if is_none same_site && not config.secure
    then err CookieConfigError.same_site_none_requires_secure
    else ok (record config { same_site = same_site })

unfoldable pub with_secure :
    Bool → SessionCookieConfig → Result SessionCookieConfig CookieConfigError
with_secure secure config =
    if not secure && is_none config.same_site
    then err CookieConfigError.same_site_none_requires_secure
    else ok (record config { secure = secure })

-- What both cookies end with.
unfoldable pub attributes : SessionCookieConfig → Text
unfolding same_site_text
attributes config =
    (if config.secure then codes "; Secure" else codes "")
    ++ (codes "; SameSite=" ++ same_site_text config.same_site)

-- The ID comes as its text.
unfoldable pub set_cookie : SessionCookieConfig → Text → Text
unfolding attributes
set_cookie config id =
    config.name
    ++ (codes "="
        ++ (id
            ++ (codes "; Path=/; Max-Age="
                ++ (decimal config.ttl_seconds ++ (codes "; HttpOnly" ++ attributes config)))))

unfoldable pub clear_cookie : SessionCookieConfig → Text
unfolding attributes
clear_cookie config = config.name ++ (codes "=; Path=/; Max-Age=0; HttpOnly" ++ attributes config)

-- The calls that a program makes on a configuration.
pub data Setting : Type 0 where
  same_site_call : SameSite → Setting
  secure_call : Bool → Setting

unfoldable pub configure :
    Setting → SessionCookieConfig → Result SessionCookieConfig CookieConfigError
unfolding with_same_site with_secure
configure (same_site_call same_site) config = with_same_site same_site config
configure (secure_call secure) config = with_secure secure config

-- Calls chained by `?`.
unfoldable pub configure_all :
    List Setting → SessionCookieConfig → Result SessionCookieConfig CookieConfigError
unfolding configure
configure_all [] config = ok config
configure_all (setting ∷ settings) config =
    configure setting config >>= λ changed. configure_all settings changed
