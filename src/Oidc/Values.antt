-- ===== src/Oidc/Values.antt =====
-- crates/rustee-core/src/oauth.rs: which values of the OAuth protocol are let in.
pub mod Grammar
use rustee_web_framework.Prelude.{
  ℕ, Bool, false, not, ◌&&◌, ◌||◌, List, [], ◌∷◌, leb, ◌==◌, all, is_empty,
}
use rustee_web_framework.Text.{
  Text, byte_len, codes, has_char, is_ascii_alphanumeric, is_ascii_control,
}
use rustee_web_framework.Text.Trim.{trim}

unfoldable pub is_valid_oauth_authorization_value : Text → Bool
is_valid_oauth_authorization_value value =
    leb 43 (byte_len value)
    && leb (byte_len value) 128
    && all (λ byte. is_ascii_alphanumeric byte || has_char byte (codes "-._~")) value

unfoldable pub is_valid_oauth_authorization_code : Text → ℕ → Bool
is_valid_oauth_authorization_code value max_value_bytes =
    not (is_empty (trim value))
    && leb (byte_len value) max_value_bytes
    && all (λ byte. not (is_ascii_control byte)) value

unfoldable pub is_valid_oauth_provider_error : Text → ℕ → Bool
is_valid_oauth_provider_error value max_value_bytes =
    not (is_empty value)
    && leb (byte_len value) max_value_bytes
    && all (λ byte. is_ascii_alphanumeric byte || has_char byte (codes "-._")) value

unfoldable pub is_valid_oauth_scope_token : Text → ℕ → Bool
is_valid_oauth_scope_token value max_value_bytes =
    not (is_empty value)
    && leb (byte_len value) max_value_bytes
    && all
        (λ byte. byte == b'!' || leb b'#' byte && leb byte b'[' || leb b']' byte && leb byte b'~')
        value

unfoldable pub are_valid_oauth_scope_tokens : List Text → ℕ → Bool
unfolding is_valid_oauth_scope_token
are_valid_oauth_scope_tokens [] max_value_bytes = false
are_valid_oauth_scope_tokens (first ∷ values) max_value_bytes =
    is_valid_oauth_scope_token first max_value_bytes
    && all (λ value. is_valid_oauth_scope_token value max_value_bytes) values
