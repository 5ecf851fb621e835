-- ===== src/Oidc/Flow/Bound.antt =====
-- Which callbacks log a user in, in crates/rustee-auth-oidc/src/browser_login/flow.rs.
use rustee_web_framework.Prelude.{
  ℕ, Bool, ◌+◌, ◌≤◌, ◌<◌, ◌≡◌, refl, ap, ◌∙◌, ◌↔◌, inl, inr, true, false, Option, none, some, arith,
  ltb, Bool-cases, Option-cases,
}
use rustee_web_framework.Prelude.Result.{ok, Result-cases}
use rustee_web_framework.Text.{Text, byte_len, eqb_iff}
use rustee_web_framework.Auth.Permission.{Principal}
use rustee_web_framework.Oidc.Values.{
  is_valid_oauth_authorization_value, is_valid_oauth_authorization_code,
}
use rustee_web_framework.Oidc.Values.Grammar.{
  IsAuthorizationValue, IsAuthorizationValue-iff, IsAuthorizationCode, IsAuthorizationCode-iff,
}
use rustee_web_framework.Oidc.Transaction.{
  PendingAuthorization, AuthorizationTransactionStore, max_transaction_ttl_seconds, is_expired,
  is_valid_for_state, has_valid_fields, valid_expiry,
}
use rustee_web_framework.Oidc.Flow.{
  max_authorization_code_bytes, max_provider_error_bytes, max_id_token_bytes, AuthorizationCallback,
  Provider, callback_code, identity, consume, complete,
}

-- The provider's answer to the code, with the transaction's own verifier and nonce.
abbrev pub Identifies : Provider → PendingAuthorization → Text → Principal → Type 0
Identifies provider transaction code principal =
    (id_token : Text) × (provider.exchange transaction.token_endpoint code transaction.code_verifier
      ≡ ok (some id_token))
    × (byte_len id_token ≤ max_id_token_bytes)
    × (provider.verify_id_token id_token transaction.nonce ≡ ok principal)

pub identity_iff :
    (provider : Provider) (transaction : PendingAuthorization) (code : Text) (principal : Principal)
    → (identity provider transaction code ≡ ok principal)
      ↔ Identifies provider transaction code principal
unfolding identity
identity_iff provider transaction code principal = (
  λ h.
      elim (Result-cases
        (provider.exchange transaction.token_endpoint code transaction.code_verifier)) [
          | inr (e, failed) ↦ absurd (ground (arith, failed, h))
          | inl (none, missing) ↦ absurd (ground (arith, missing, h))
          | inl (some id_token, there) ↦
              elim (Bool-cases (ltb max_id_token_bytes (byte_len id_token))) [
                | inl long ↦ absurd (ground (arith, there, long, h))
                | inr short ↦
                    elim (Result-cases (provider.verify_id_token id_token transaction.nonce)) [
                      | inl (who, verified) ↦
                          let same : (who ≡ principal) =
                            ground (arith, there, short, verified, h) in
                          (id_token, there, ground (arith, short), verified ∙ ap ok same)
                      | inr (e, refused) ↦ absurd (ground (arith, there, short, refused, h))
                    ]
              ]
        ],
  λ (id_token, there, bound, verified).
      let short : (ltb max_id_token_bytes (byte_len id_token) ≡ false) = ground (arith, bound) in
      rw (identity, there, short, verified) refl,
)

abbrev pub IsShort : Option Text → Type 0
IsShort none = Unit
IsShort (some description) = byte_len description ≤ max_provider_error_bytes

-- A callback that reports no error and carries this acceptable code.
abbrev pub Carries : AuthorizationCallback → Text → Type 0
Carries callback code =
    IsShort callback.error_description
    × (callback.error ≡ none)
    × (callback.code ≡ some code)
    × IsAuthorizationCode max_authorization_code_bytes code

code_cases :
    (description error given : Option Text) (code : Text)
    → (callback_code
          (record { code = given; state = none; error = error; error_description = description })
        ≡ ok code)
      ↔ (IsShort description
          × (error ≡ none)
          × (given ≡ some code)
          × (is_valid_oauth_authorization_code code max_authorization_code_bytes ≡ true))
unfolding callback_code
code_cases none none none code = ground arith
code_cases none none (some given) code = ground arith
code_cases none (some error) given code = ground arith
code_cases (some description) none none code = ground arith
code_cases (some description) none (some given) code = ground arith
code_cases (some description) (some error) given code = ground arith

pub callback_code_iff :
    (callback : AuthorizationCallback) (code : Text)
    → (callback_code callback ≡ ok code) ↔ Carries callback code
unfolding callback_code
callback_code_iff callback code =
    let (to, from) = code_cases callback.error_description callback.error callback.code code in
    let (spelled, checked) = IsAuthorizationCode-iff code max_authorization_code_bytes in
    (
      λ h. let (short, fine, given, valid) = to h in (short, fine, given, spelled valid),
      λ (short, fine, given, valid). from (short, fine, given, checked valid),
    )

-- A transaction that was made for this state: its values have the grammar that they are drawn with,
-- and it lives no longer than a transaction may.
abbrev pub IsMadeFor : (Text → Bool) → ℕ → Text → PendingAuthorization → Type 0
IsMadeFor is_valid_https_url now key transaction =
    (transaction.state ≡ key)
    × IsAuthorizationValue transaction.state
    × IsAuthorizationValue transaction.nonce
    × IsAuthorizationValue transaction.code_verifier
    × (is_valid_https_url transaction.token_endpoint ≡ true)
    × (transaction.expires_at_unix_seconds ≤ now + max_transaction_ttl_seconds)

IsMadeFor-iff :
    (is_valid_https_url : Text → Bool) (now : ℕ) (key : Text) (transaction : PendingAuthorization)
    → (is_valid_for_state is_valid_https_url now key transaction ≡ true)
      ↔ IsMadeFor is_valid_https_url now key transaction
unfolding is_valid_for_state has_valid_fields valid_expiry
IsMadeFor-iff is_valid_https_url now key transaction = ground (
  arith,
  eqb_iff transaction.state key,
  IsAuthorizationValue-iff transaction.state,
  IsAuthorizationValue-iff transaction.nonce,
  IsAuthorizationValue-iff transaction.code_verifier,
)

consume_iff :
    (provider : Provider) (now later : ℕ) (callback : AuthorizationCallback) (key : Text)
    (transaction : PendingAuthorization) (principal : Principal)
    → (consume provider now later callback key transaction ≡ ok principal) ↔ (
        (is_valid_for_state provider.is_valid_https_url now key transaction ≡ true)
        × (is_expired later transaction ≡ false)
        × (code : Text) × (callback_code callback ≡ ok code)
        × (identity provider transaction code ≡ ok principal))
unfolding consume
consume_iff provider now later callback key transaction principal = (
  λ h. elim (Bool-cases (is_valid_for_state provider.is_valid_https_url now key transaction)) [
    | inr foreign ↦ absurd (ground (arith, foreign, h))
    | inl matches ↦ elim (Bool-cases (is_expired later transaction)) [
      | inl dead ↦ absurd (ground (arith, matches, dead, h))
      | inr fresh ↦ elim (Result-cases (callback_code callback)) [
        | inr (e, refused) ↦ absurd (ground (arith, matches, fresh, refused, h))
        | inl (code, carried) ↦
            (matches, fresh, code, carried, ground (arith, matches, fresh, carried, h))
      ]
    ]
  ],
  λ (matches, fresh, code, carried, identified).
      ground (arith, matches, fresh, carried, identified),
)

-- All that a login rests on.
abbrev pub LogsIn :
    (provider : Provider) (store : AuthorizationTransactionStore)
    → ℕ
    → ℕ
    → AuthorizationCallback
    → store.State
    → Principal
    → Type 0
LogsIn provider store now later callback state principal =
    (key : Text) × (callback.state ≡ some key)
    × IsAuthorizationValue key
    × (transaction : PendingAuthorization) × ((store.take key state).0 ≡ ok (some transaction))
    × IsMadeFor provider.is_valid_https_url now key transaction
    × (later < transaction.expires_at_unix_seconds)
    × (code : Text) × Carries callback code
    × Identifies provider transaction code principal

-- A callback logs a principal in exactly where all of this holds. It carries a state of 43 to 128
-- unreserved characters, and the store gives up the transaction under that state. The transaction's
-- own state is that state, its nonce and code verifier are such values too, its token endpoint is
-- accepted as a URL, and it expires after the second reading of the clock and at most 3600 seconds
-- after the first. The callback reports no error, an error description has at most
-- `max_provider_error_bytes` bytes, and its code is not blank, has no control characters and at most
-- `max_authorization_code_bytes` bytes. The token endpoint answers the code and the transaction's
-- code verifier with an ID token of at most `max_id_token_bytes` bytes, and the verifier finds in that
-- token, against the transaction's nonce, the principal.
pub complete_iff :
    (provider : Provider) (store : AuthorizationTransactionStore) (now later : ℕ)
    (callback : AuthorizationCallback) (state : store.State) (principal : Principal)
    → ((complete provider store now later callback state).0 ≡ ok principal)
      ↔ LogsIn provider store now later callback state principal
unfolding complete
complete_iff provider store now later callback state principal = (
  λ h. elim (Option-cases callback.state) [
    | inl missing ↦ absurd (ground (arith, missing, h))
    | inr (key, given) ↦ elim (Bool-cases (is_valid_oauth_authorization_value key)) [
      | inr invalid ↦ absurd (ground (arith, given, invalid, h))
      | inl valid ↦ elim (Result-cases (store.take key state).0) [
        | inr (e, failed) ↦ absurd (ground (arith, given, valid, failed, h))
        | inl (none, unknown) ↦ absurd (ground (arith, given, valid, unknown, h))
        | inl (some transaction, taken) ↦
            let (matches, fresh, code, carried, identified) =
              (consume_iff provider now later callback key transaction principal).0
                (ground (arith, given, valid, taken, h)) in
            (
              key,
              given,
              (IsAuthorizationValue-iff key).0 valid,
              transaction,
              taken,
              (IsMadeFor-iff provider.is_valid_https_url now key transaction).0 matches,
              ground (arith, fresh),
              code,
              (callback_code_iff callback code).0 carried,
              (identity_iff provider transaction code principal).0 identified,
            )
      ]
    ]
  ],
  λ (key, given, valid, transaction, taken, matches, fresh, code, carried, identified).
      let known = (IsAuthorizationValue-iff key).1 valid in
      let consumed = (consume_iff provider now later callback key transaction principal).1 (
        (IsMadeFor-iff provider.is_valid_https_url now key transaction).1 matches,
        ground (arith, fresh),
        code,
        (callback_code_iff callback code).1 carried,
        (identity_iff provider transaction code principal).1 identified,
      ) in
      rw (complete, given, known, taken) consumed,
)
