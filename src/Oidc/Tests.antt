-- ===== src/Oidc/Tests.antt =====
-- Logins with a concrete provider.
use rustee_web_framework.Text.Trim.{trim}
use rustee_web_framework.Prelude.{
  ◌≡◌, ◌↔◌, refl, true, false, none, some, List, [], ◌∷◌, ◌++◌, ◌≤◌, ◌&&◌, All, arith,
}
use rustee_web_framework.Prelude.Result.{ok, err}
use rustee_web_framework.Text.{byte_len, Text, codes, starts_with, eqb}
use rustee_web_framework.AssocMap.{insert, retain, contains_key, remove, get}
use rustee_web_framework.Auth.Permission.{Principal}
use rustee_web_framework.Oidc.Values.{
  is_valid_oauth_authorization_code, is_valid_oauth_authorization_value,
  are_valid_oauth_scope_tokens,
}
use rustee_web_framework.Oidc.Values.Grammar.{IsAuthorizationCode-iff}
use rustee_web_framework.Oidc.Transaction.{
  is_valid_for_state, PendingAuthorization, InMemoryAuthorizationTransactionStore, in_memory, save,
  take, remaining_ttl_seconds,
}
use rustee_web_framework.Oidc.Transaction.Once.{Call, save_call, take_call, run, Spares}
use rustee_web_framework.Oidc.Flow.{
  max_authorization_code_bytes, max_id_token_bytes, redirect_new, AuthError, OidcLoginError,
  AuthorizationCallback, OidcProviderMetadata, Provider, Generated, transaction_of, begin, complete,
  error_response,
}
use rustee_web_framework.Oidc.Flow.Bound.{LogsIn, Carries, complete_iff}
use rustee_web_framework.Oidc.Flow.Replay.{complete_once, complete-begin}

abbrev long : Text
long = codes "0123456789012345678901234567890123456789abc"

abbrev other : Text
other = codes "0123456789012345678901234567890123456789abd"

abbrev fresh : Text
fresh = codes "nonce-56789012345678901234567890123456789abcdef"

abbrev secret : Text
secret = codes "verifier-9012345678901234567890123456789abcdef"

abbrev ada : Principal
ada = record {
  subject = codes "ada";
  issuer = none;
  tenant = none;
  scopes = codes "profile:read" ∷ [];
  roles = codes "clerk" ∷ [];
  permissions = [];
}

-- A provider that knows one code, and a verifier that accepts its token.
abbrev provider : Provider
provider = record {
  transaction_ttl_seconds = 600;
  is_valid_https_url = starts_with (codes "https://");
  is_header_value = λ _. true;
  authorization_location = λ endpoint state nonce verifier. endpoint ++ (codes "?state=" ++ state);
  exchange = λ endpoint code verifier. elim (eqb code (codes "good") && eqb verifier secret) [
    | true ↦ ok (some (codes "token"))
    | false ↦ ok none
  ];
  verify_id_token = λ token nonce. elim (eqb nonce fresh) [
    | true ↦ ok ada
    | false ↦ err AuthError.rejected_bearer_token
  ];
}

abbrev metadata : OidcProviderMetadata
metadata = record {
  authorization_endpoint = codes "https://id.example/authorize";
  token_endpoint = codes "https://id.example/token";
}

abbrev drawn : Generated
drawn = record { state = long; nonce = fresh; code_verifier = secret; created = 100; saved = 100 }

abbrev pending : PendingAuthorization
pending = transaction_of provider metadata drawn

abbrev empty : InMemoryAuthorizationTransactionStore
empty = record { transactions = []; poisoned = false }

abbrev store : InMemoryAuthorizationTransactionStore
store = record { transactions = (long, pending) ∷ []; poisoned = false }

abbrev callback : AuthorizationCallback
callback = record {
  code = some (codes "good");
  state = some long;
  error = none;
  error_description = none;
}

abbrev redirect : Text
redirect = codes "https://id.example/authorize?state=0123456789012345678901234567890123456789abc"

logs_in : complete provider in_memory 200 200 callback store ≡ (ok ada, empty)
unfolding complete is_valid_oauth_authorization_value byte_len take get remove is_valid_for_state
    starts_with is_valid_oauth_authorization_code trim
logs_in = refl

too_late :
    (complete provider in_memory 700 700 callback store).0 ≡ err OidcLoginError.transaction_expired
unfolding complete is_valid_oauth_authorization_value byte_len take get is_valid_for_state
    starts_with
too_late = refl

begun : begin provider in_memory (ok metadata) drawn empty ≡ (ok redirect, store)
unfolding begin is_valid_oauth_authorization_value byte_len redirect_new save contains_key retain
    insert
begun = refl

redirected : (begin provider in_memory (ok metadata) drawn empty).0 ≡ ok redirect
unfolding begin is_valid_oauth_authorization_value byte_len redirect_new save contains_key retain
redirected = refl

rejected : error_response OidcLoginError.state_rejected ≡ (400, codes "oidc_login_rejected")
unfolding error_response
rejected = refl

scopes : are_valid_oauth_scope_tokens (codes "profile:read" ∷ codes "mcp:tools" ∷ []) 256 ≡ true
unfolding are_valid_oauth_scope_tokens byte_len
scopes = refl

lasts : remaining_ttl_seconds 200 pending ≡ some 500
unfolding remaining_ttl_seconds
lasts = refl

valid : is_valid_oauth_authorization_value long ≡ true
unfolding is_valid_oauth_authorization_value byte_len
valid = refl

abbrev another : PendingAuthorization
another = record {
  state = other;
  nonce = long;
  code_verifier = long;
  token_endpoint = metadata.token_endpoint;
  expires_at_unix_seconds = 900;
}

abbrev calls : List Call
calls = save_call 210 another ∷ take_call other ∷ []

spares : All (Spares long) calls
spares = (refl, (tt, tt))

https : provider.is_valid_https_url metadata.token_endpoint ≡ true
unfolding starts_with
https = refl

found : get eqb long store.transactions ≡ some pending
unfolding get
found = refl

complete_iff_example :
    ((complete provider in_memory 200 200 callback store).0 ≡ ok ada)
    ↔ LogsIn provider in_memory 200 200 callback store ada
complete_iff_example = complete_iff provider in_memory 200 200 callback store ada

complete_once_example :
    (complete provider in_memory 220 220 callback
      (run calls (complete provider in_memory 200 200 callback store).1)).0
    ≡ err OidcLoginError.state_rejected
complete_once_example =
    complete_once provider 200 200 220 220 long callback callback calls store refl valid refl refl
      spares

carries : Carries callback (codes "good")
unfolding is_valid_oauth_authorization_code trim byte_len
carries =
    (tt, refl, refl, (IsAuthorizationCode-iff (codes "good") max_authorization_code_bytes).0 refl)

complete-begin_example :
    ((complete provider in_memory 200 200 callback
        (begin provider in_memory (ok metadata) drawn empty).1).0
      ≡ ok ada)
    ↔ ((id_token : Text) × (provider.exchange metadata.token_endpoint (codes "good") secret
          ≡ ok (some id_token))
        × (byte_len id_token ≤ max_id_token_bytes)
        × (provider.verify_id_token id_token fresh ≡ ok ada))
complete-begin_example =
    complete-begin provider metadata drawn 200 200 callback (codes "good") redirect empty ada
      redirected https (omega arith) (omega arith) (omega arith) refl carries
