-- ===== src/Oidc/Flow.antt =====
-- crates/rustee-auth-oidc/src/browser_login/flow.rs, `OidcBrowserLogin`, with the errors and the
-- limits of browser_login.rs and the callback of browser_login/transport.rs. What the provider and
-- other crates answer is a record of functions.
pub mod Bound
pub mod Replay
use rustee_web_framework.Prelude.{
  ℕ, ◌+◌, ◌-◌, Bool, true, false, not, ◌&&◌, ◌||◌, Option, none, some, ltb, if◌then◌else◌, min,
}
use rustee_web_framework.Prelude.Result.{Result, ok, err}
use rustee_web_framework.Text.{Text, byte_len, codes}
use rustee_web_framework.Text.Number.{u64_bound}
use rustee_web_framework.Auth.Permission.{Principal}
use rustee_web_framework.Oidc.Values.{
  is_valid_oauth_authorization_value, is_valid_oauth_authorization_code,
  is_valid_oauth_provider_error,
}
use rustee_web_framework.Oidc.Transaction.{
  PendingAuthorization, AuthorizationTransactionStore, is_expired, is_valid_for_state,
}

abbrev pub max_authorization_code_bytes : ℕ
max_authorization_code_bytes = 16384

abbrev pub max_authorization_redirect_bytes : ℕ
max_authorization_redirect_bytes = 8192

-- `MAX_BEARER_TOKEN_BYTES` of crates/rustee-auth.
abbrev pub max_id_token_bytes : ℕ
max_id_token_bytes = 16384

abbrev pub max_provider_error_bytes : ℕ
max_provider_error_bytes = 256

pub data OidcLoginError : Type 0 where
  transaction_store_unavailable discovery_unavailable invalid_provider_metadata state_rejected
        transaction_expired callback_rejected provider_rejected token_exchange_unavailable
        missing_id_token identity_provider_unavailable session_unavailable identity_token_rejected :
      OidcLoginError

unfoldable pub is_provider_unavailable : OidcLoginError → Bool
is_provider_unavailable OidcLoginError.transaction_store_unavailable = true
is_provider_unavailable OidcLoginError.discovery_unavailable = true
is_provider_unavailable OidcLoginError.token_exchange_unavailable = true
is_provider_unavailable OidcLoginError.identity_provider_unavailable = true
is_provider_unavailable OidcLoginError.session_unavailable = true
is_provider_unavailable _ = false

-- `OidcLoginError::into_response`: the status, and the code in the body.
unfoldable pub error_response : OidcLoginError → ℕ × Text
unfolding is_provider_unavailable
error_response error =
    if is_provider_unavailable error then (503, codes "oidc_unavailable") else elim error [
      | OidcLoginError.invalid_provider_metadata ↦ (502, codes "oidc_provider_rejected")
      | _ ↦ (400, codes "oidc_login_rejected")
    ]

-- `AuthError` of crates/rustee-auth, as an ID-token verifier returns it.
pub data AuthError : Type 0 where
  missing_bearer_token invalid_bearer_token rejected_bearer_token provider_unavailable : AuthError

unfoldable pub map_id_token_error : AuthError → OidcLoginError
map_id_token_error AuthError.provider_unavailable = OidcLoginError.identity_provider_unavailable
map_id_token_error AuthError.missing_bearer_token = OidcLoginError.identity_token_rejected
map_id_token_error AuthError.invalid_bearer_token = OidcLoginError.identity_token_rejected
map_id_token_error AuthError.rejected_bearer_token = OidcLoginError.identity_token_rejected

pub record OidcProviderMetadata : Type 0 where
  pub authorization_endpoint : Text
  pub token_endpoint : Text

pub record AuthorizationCallback : Type 0 where
  pub code : Option Text
  pub state : Option Text
  pub error : Option Text
  pub error_description : Option Text

-- The configuration and the capabilities of one `OidcBrowserLogin`. `authorization_location` is the
-- endpoint with the query that `begin` appends for a state, a nonce and a code verifier.
-- `exchange` posts a code and a code verifier to a token endpoint, as the configured client.
pub record Provider : Type 0 where
  pub transaction_ttl_seconds : ℕ
  pub is_valid_https_url : Text → Bool
  pub is_header_value : Text → Bool
  pub authorization_location : Text → Text → Text → Text → Text
  pub exchange : Text → Text → Text → Result (Option Text) (Unit {0})
  pub verify_id_token : Text → Text → Result Principal AuthError

-- `AuthorizationRedirect::new`.
unfoldable pub redirect_new : Provider → Text → Result Text OidcLoginError
redirect_new provider location =
    if ltb max_authorization_redirect_bytes (byte_len location)
    then err OidcLoginError.invalid_provider_metadata
    else if not (provider.is_header_value location)
    then err OidcLoginError.invalid_provider_metadata
    else ok location

-- What the generator gives in `begin`, and the clock when the transaction is made and saved.
pub record Generated : Type 0 where
  pub state : Text
  pub nonce : Text
  pub code_verifier : Text
  pub created : ℕ
  pub saved : ℕ

abbrev pub transaction_of : Provider → OidcProviderMetadata → Generated → PendingAuthorization
transaction_of provider metadata drawn = record {
  state = drawn.state;
  nonce = drawn.nonce;
  code_verifier = drawn.code_verifier;
  token_endpoint = metadata.token_endpoint;
  expires_at_unix_seconds = min (drawn.created + provider.transaction_ttl_seconds) (u64_bound - 1);
}

-- The code of a callback that the checks after `take` let through, or the error.
unfoldable pub callback_code : AuthorizationCallback → Result Text OidcLoginError
callback_code callback =
    if elim callback.error_description [
      | none ↦ false
      | some description ↦ ltb max_provider_error_bytes (byte_len description)
    ]
    then err OidcLoginError.callback_rejected
    else elim callback.error [
      | some error ↦
          if not (is_valid_oauth_provider_error error max_provider_error_bytes)
          then err OidcLoginError.callback_rejected
          else err OidcLoginError.provider_rejected
      | none ↦ elim callback.code [
        | none ↦ err OidcLoginError.callback_rejected
        | some code ↦
            if not (is_valid_oauth_authorization_code code max_authorization_code_bytes)
            then err OidcLoginError.callback_rejected
            else ok code
      ]
    ]

-- From the exchange of the code to the verified principal.
unfoldable pub identity : Provider → PendingAuthorization → Text → Result Principal OidcLoginError
unfolding map_id_token_error
identity provider transaction code =
    elim (provider.exchange transaction.token_endpoint code transaction.code_verifier) [
      | err _ ↦ err OidcLoginError.token_exchange_unavailable
      | ok none ↦ err OidcLoginError.missing_id_token
      | ok (some id_token) ↦
          if ltb max_id_token_bytes (byte_len id_token)
          then err OidcLoginError.identity_token_rejected
          else elim (provider.verify_id_token id_token transaction.nonce) [
            | err error ↦ err (map_id_token_error error)
            | ok principal ↦ ok principal
          ]
    ]

-- What follows `take` in `complete`. The clock shows `now`, then `later`.
unfoldable pub consume :
    Provider
    → ℕ
    → ℕ
    → AuthorizationCallback
    → Text
    → PendingAuthorization
    → Result Principal OidcLoginError
unfolding callback_code identity
consume provider now later callback state transaction =
    if not (is_valid_for_state provider.is_valid_https_url now state transaction)
    then err OidcLoginError.state_rejected
    else if is_expired later transaction
    then err OidcLoginError.transaction_expired
    else elim (callback_code callback) [
      | err error ↦ err error
      | ok code ↦ identity provider transaction code
    ]

module _ (provider : Provider) (store : AuthorizationTransactionStore) where
  -- `begin`, on what `discover_provider` answers.
  unfoldable pub begin :
      Result OidcProviderMetadata OidcLoginError
      → Generated
      → store.State
      → Result Text OidcLoginError × store.State
  begin (err error) drawn state = (err error, state)
  begin (ok metadata) drawn state =
      if not (is_valid_oauth_authorization_value drawn.state)
        || not (is_valid_oauth_authorization_value drawn.nonce)
        || not (is_valid_oauth_authorization_value drawn.code_verifier)
      then (err OidcLoginError.callback_rejected, state)
      else elim (redirect_new provider (
          provider.authorization_location metadata.authorization_endpoint drawn.state drawn.nonce
            drawn.code_verifier)) [
              | err error ↦ (err error, state)
              | ok redirect ↦
                  let saved =
                    store.save drawn.saved (transaction_of provider metadata drawn) state in
                  elim saved.0 [
                    | err _ ↦ (err OidcLoginError.transaction_store_unavailable, saved.1)
                    | ok _ ↦ (ok redirect, saved.1)
                  ]
            ]

  unfoldable pub complete :
      ℕ → ℕ → AuthorizationCallback → store.State → Result Principal OidcLoginError × store.State
  unfolding consume
  complete now later callback state = elim callback.state [
    | none ↦ (err OidcLoginError.callback_rejected, state)
    | some key ↦
        if not (is_valid_oauth_authorization_value key)
        then (err OidcLoginError.callback_rejected, state)
        else let taken = store.take key state in
          (
            elim taken.0 [
              | err _ ↦ err OidcLoginError.transaction_store_unavailable
              | ok none ↦ err OidcLoginError.state_rejected
              | ok (some transaction) ↦ consume provider now later callback key transaction
            ],
            taken.1,
          )
  ]
