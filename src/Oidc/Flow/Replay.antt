-- ===== src/Oidc/Flow/Replay.antt =====
-- A login at crates/rustee-auth-oidc/src/browser_login/flow.rs from its redirect to its callback,
-- and a second callback with the same state, on the store in memory.
use rustee_web_framework.Prelude.{
  ℕ, ◌+◌, ◌-◌, ◌≤◌, ◌<◌, ◌≡◌, ◌∙◌, ◌↔◌, min, refl, sym, subst, inl, inr, true, false, none, some,
  List, arith, leb, length, Bool-cases, All,
}
use rustee_web_framework.Prelude.Result.{ok, err, Result-cases}
use rustee_web_framework.Text.Number.{u64_bound}
use rustee_web_framework.Auth.Permission.{Principal}
use rustee_web_framework.Text.{Text, byte_len, eqb, eqb_refl, eqb_iff}
use rustee_web_framework.AssocMap.{retain, contains_key, get-insert}
use rustee_web_framework.Oidc.Values.{is_valid_oauth_authorization_value}
use rustee_web_framework.Oidc.Transaction.{
  PendingAuthorization, InMemoryAuthorizationTransactionStore, in_memory, save, take, live,
  max_in_memory_transactions, max_transaction_ttl_seconds, is_expired, is_valid_for_state,
  has_valid_fields, valid_expiry,
}
use rustee_web_framework.Oidc.Transaction.Once.{Call, run, Spares, take_once}
use rustee_web_framework.Oidc.Flow.{
  OidcLoginError, max_id_token_bytes, AuthorizationCallback, OidcProviderMetadata, Provider,
  Generated, transaction_of, redirect_new, identity, consume, begin, complete,
}
use rustee_web_framework.Oidc.Flow.Bound.{Carries, callback_code_iff, identity_iff}

complete-state :
    (provider : Provider) (now later : ℕ) (callback : AuthorizationCallback) (key : Text)
    (store : InMemoryAuthorizationTransactionStore)
    → callback.state ≡ some key
    → is_valid_oauth_authorization_value key ≡ true
    → (complete provider in_memory now later callback store).1 ≡ (take key store).1
unfolding complete take
complete-state provider now later callback key store given valid = rw (complete, given, valid) refl

complete-unknown :
    (provider : Provider) (now later : ℕ) (callback : AuthorizationCallback) (key : Text)
    (store : InMemoryAuthorizationTransactionStore)
    → callback.state ≡ some key
    → is_valid_oauth_authorization_value key ≡ true
    → (take key store).0 ≡ ok none
    → (complete provider in_memory now later callback store).0 ≡ err OidcLoginError.state_rejected
unfolding complete
complete-unknown provider now later callback key store given valid unknown =
    rw (complete, given, valid, unknown) refl

-- Whatever came of a callback with a valid state, every later callback with that state is rejected,
-- until a transaction is saved under it again. The lock is sound.
pub complete_once :
    (provider : Provider) (now later then_now then_later : ℕ) (key : Text)
    (first second : AuthorizationCallback) (calls : List Call)
    (store : InMemoryAuthorizationTransactionStore)
    → store.poisoned ≡ false
    → is_valid_oauth_authorization_value key ≡ true
    → first.state ≡ some key
    → second.state ≡ some key
    → All (Spares key) calls
    → (complete provider in_memory then_now then_later second
        (run calls (complete provider in_memory now later first store).1)).0
      ≡ err OidcLoginError.state_rejected
complete_once provider now later then_now then_later key first second calls store sound valid given
      again spares =
    let after = complete-state provider now later first key store given valid in
    let once = take_once key calls store sound spares in
    complete-unknown provider then_now then_later second key
      (run calls (complete provider in_memory now later first store).1) again valid
      (subst (λ s. (take key (run calls s)).0 ≡ ok none) (sym after) once)

save-inserts :
    (now : ℕ) (transaction : PendingAuthorization) (store : InMemoryAuthorizationTransactionStore)
    → (save now transaction store).0 ≡ ok tt
    → (take transaction.state (save now transaction store).1).0 ≡ ok (some transaction)
unfolding save take
save-inserts now transaction store h =
    let kept = retain (live now) store.transactions in
    let there = get-insert eqb eqb_iff transaction.state transaction kept in
    elim (Bool-cases store.poisoned) [
      | inl broken ↦ absurd (ground (arith, broken, h))
      | inr sound ↦ elim (Bool-cases (contains_key eqb transaction.state kept)) [
        | inl taken ↦ absurd (ground (arith, sound, taken, h))
        | inr free ↦ elim (Bool-cases (leb max_in_memory_transactions (length kept))) [
          | inl full ↦ absurd (ground (arith, sound, free, full, h))
          | inr room ↦ simp (sound, free, room, there) refl
        ]
      ]
    ]

-- A redirect is given out only for valid values and a saved transaction.
begin-saved :
    (provider : Provider) (metadata : OidcProviderMetadata) (drawn : Generated)
    (store : InMemoryAuthorizationTransactionStore) (redirect : Text)
    → (begin provider in_memory (ok metadata) drawn store).0 ≡ ok redirect
    → (is_valid_oauth_authorization_value drawn.state ≡ true)
      × (is_valid_oauth_authorization_value drawn.nonce ≡ true)
      × (is_valid_oauth_authorization_value drawn.code_verifier ≡ true)
      × ((save drawn.saved (transaction_of provider metadata drawn) store).0 ≡ ok tt)
      × ((begin provider in_memory (ok metadata) drawn store).1
          ≡ (save drawn.saved (transaction_of provider metadata drawn) store).1)
unfolding begin
begin-saved provider metadata drawn store redirect h =
    elim (Bool-cases (is_valid_oauth_authorization_value drawn.state)) [
      | inr bad ↦ absurd (ground (arith, bad, h))
      | inl state_valid ↦ elim (Bool-cases (is_valid_oauth_authorization_value drawn.nonce)) [
        | inr bad ↦ absurd (ground (arith, state_valid, bad, h))
        | inl nonce_valid ↦
            elim (Bool-cases (is_valid_oauth_authorization_value drawn.code_verifier)) [
              | inr bad ↦ absurd (ground (arith, state_valid, nonce_valid, bad, h))
              | inl verifier_valid ↦
                  elim (Result-cases (
                    redirect_new provider (
                      provider.authorization_location metadata.authorization_endpoint drawn.state
                        drawn.nonce drawn.code_verifier))) [
                          | inr (e, bad) ↦
                              absurd
                                (ground (arith, state_valid, nonce_valid, verifier_valid, bad, h))
                          | inl (location, led) ↦
                              elim (Result-cases
                                (save drawn.saved (transaction_of provider metadata drawn)
                                  store).0) [
                                    | inr (e, bad) ↦ absurd (
                                        ground (
                                          arith, state_valid, nonce_valid, verifier_valid, led, bad,
                                          h,
                                        ))
                                    | inl (tt, saved) ↦ (
                                      state_valid,
                                      nonce_valid,
                                      verifier_valid,
                                      saved,
                                      ground (
                                        arith, state_valid, nonce_valid, verifier_valid, led, saved,
                                      ),
                                    )
                                  ]
                        ]
            ]
      ]
    ]

transaction_of-is_valid_for_state :
    (provider : Provider) (metadata : OidcProviderMetadata) (drawn : Generated) (now : ℕ)
    → is_valid_oauth_authorization_value drawn.state ≡ true
    → is_valid_oauth_authorization_value drawn.nonce ≡ true
    → is_valid_oauth_authorization_value drawn.code_verifier ≡ true
    → provider.is_valid_https_url metadata.token_endpoint ≡ true
    → provider.transaction_ttl_seconds ≤ max_transaction_ttl_seconds
    → drawn.created ≤ now
    → is_valid_for_state provider.is_valid_https_url now drawn.state
        (transaction_of provider metadata drawn)
      ≡ true
unfolding is_valid_for_state has_valid_fields valid_expiry
transaction_of-is_valid_for_state provider metadata drawn now state nonce verifier url ttl order =
    ground (arith, eqb_refl drawn.state, state, nonce, verifier, url, ttl, order)

-- The answer to the callback of a login that was begun.
complete-answered :
    (provider : Provider) (metadata : OidcProviderMetadata) (drawn : Generated) (now later : ℕ)
    (callback : AuthorizationCallback) (code redirect : Text)
    (store : InMemoryAuthorizationTransactionStore)
    → (begin provider in_memory (ok metadata) drawn store).0 ≡ ok redirect
    → provider.is_valid_https_url metadata.token_endpoint ≡ true
    → provider.transaction_ttl_seconds ≤ max_transaction_ttl_seconds
    → drawn.created ≤ now
    → is_expired later (transaction_of provider metadata drawn) ≡ false
    → callback.state ≡ some drawn.state
    → Carries callback code
    → (complete provider in_memory now later callback
        (begin provider in_memory (ok metadata) drawn store).1).0
      ≡ identity provider (transaction_of provider metadata drawn) code
unfolding complete consume
complete-answered provider metadata drawn now later callback code redirect store h url ttl order
      fresh given carries =
    let (state, nonce, verifier, saved, left) =
      begin-saved provider metadata drawn store redirect h in
    let transaction = transaction_of provider metadata drawn in
    let after = (begin provider in_memory (ok metadata) drawn store).1 in
    let matches =
      transaction_of-is_valid_for_state provider metadata drawn now state nonce verifier url ttl
        order in
    let taken : ((take drawn.state after).0 ≡ ok (some transaction)) =
      subst (λ s. (take drawn.state s).0 ≡ ok (some transaction)) (sym left)
        (save-inserts drawn.saved transaction store saved) in
    let carried = (callback_code_iff callback code).1 carries in
    rw (complete, given, state, taken, consume, matches, fresh, carried) refl

-- A login whose redirect was given out can be completed. The token endpoint is a trusted URL, the
-- transactions live an hour at most, and the clock does not go back. A callback with the login's
-- state and a code, which comes with no other call between and before the second that is
-- `transaction_ttl_seconds` after the login's start (or the last one of a `u64`), logs a principal in
-- exactly where the token endpoint answers that code and this login's own code verifier with an ID
-- token of at most `max_id_token_bytes` bytes in which the verifier finds, against this login's own
-- nonce, that principal.
pub complete-begin :
    (provider : Provider) (metadata : OidcProviderMetadata) (drawn : Generated) (now later : ℕ)
    (callback : AuthorizationCallback) (code redirect : Text)
    (store : InMemoryAuthorizationTransactionStore) (principal : Principal)
    → (begin provider in_memory (ok metadata) drawn store).0 ≡ ok redirect
    → provider.is_valid_https_url metadata.token_endpoint ≡ true
    → provider.transaction_ttl_seconds ≤ max_transaction_ttl_seconds
    → drawn.created ≤ now
    → later < min (drawn.created + provider.transaction_ttl_seconds) (u64_bound - 1)
    → callback.state ≡ some drawn.state
    → Carries callback code
    → ((complete provider in_memory now later callback
          (begin provider in_memory (ok metadata) drawn store).1).0
        ≡ ok principal)
      ↔ ((id_token : Text) × (provider.exchange metadata.token_endpoint code drawn.code_verifier
            ≡ ok (some id_token))
          × (byte_len id_token ≤ max_id_token_bytes)
          × (provider.verify_id_token id_token drawn.nonce ≡ ok principal))
complete-begin provider metadata drawn now later callback code redirect store principal h url ttl
      order early given carries =
    let fresh : (is_expired later (transaction_of provider metadata drawn) ≡ false) =
      ground (arith, early) in
    let same =
      complete-answered provider metadata drawn now later callback code redirect store h url ttl
        order fresh given carries in
    let (to, from) =
      identity_iff provider (transaction_of provider metadata drawn) code principal in
    (λ answered. to (sym same ∙ answered), λ identified. same ∙ from identified)
