-- ===== src/Oidc/Transaction.antt =====
-- crates/rustee-auth-oidc/src/browser_login/transaction.rs: the authorization transactions that
-- wait for their callback, and the store in memory. Each operation on the store holds the lock from
-- its start to its end; `poisoned` says that locking fails. A reading of the clock is an argument.
-- `Url` is of another crate: a URL is its text, and whether it is a trusted HTTPS URL is a parameter.
pub mod Once
use rustee_web_framework.Prelude.{
  ℕ, ◌-◌, Bool, true, false, not, ◌&&◌, ◌||◌, Option, none, some, List, leb, ltb, if◌then◌else◌,
  length,
}
use rustee_web_framework.Prelude.Result.{Result, ok, err}
use rustee_web_framework.Text.{Text, eqb}
use rustee_web_framework.AssocMap.{get, insert, remove, retain, contains_key}
use rustee_web_framework.Oidc.Values.{is_valid_oauth_authorization_value}

abbrev pub max_in_memory_transactions : ℕ
max_in_memory_transactions = 1024

-- `MAX_TRANSACTION_TTL.as_secs()`.
abbrev pub max_transaction_ttl_seconds : ℕ
max_transaction_ttl_seconds = 3600

pub record PendingAuthorization : Type 0 where
  pub state : Text
  pub nonce : Text
  pub code_verifier : Text
  pub token_endpoint : Text
  pub expires_at_unix_seconds : ℕ

abbrev pub is_expired : ℕ → PendingAuthorization → Bool
is_expired now transaction = leb transaction.expires_at_unix_seconds now

unfoldable pub valid_expiry : ℕ → ℕ → Bool
valid_expiry now expires_at_unix_seconds =
    ltb expires_at_unix_seconds now
    || leb (expires_at_unix_seconds - now) max_transaction_ttl_seconds

unfoldable pub has_valid_fields : (Text → Bool) → ℕ → PendingAuthorization → Bool
unfolding valid_expiry
has_valid_fields is_valid_https_url now transaction =
    is_valid_oauth_authorization_value transaction.state
    && is_valid_oauth_authorization_value transaction.nonce
    && is_valid_oauth_authorization_value transaction.code_verifier
    && is_valid_https_url transaction.token_endpoint
    && valid_expiry now transaction.expires_at_unix_seconds

unfoldable pub is_valid_for_state : (Text → Bool) → ℕ → Text → PendingAuthorization → Bool
unfolding has_valid_fields
is_valid_for_state is_valid_https_url now state transaction =
    eqb transaction.state state && has_valid_fields is_valid_https_url now transaction

unfoldable pub remaining_ttl_seconds : ℕ → PendingAuthorization → Option ℕ
remaining_ttl_seconds now transaction =
    if ltb transaction.expires_at_unix_seconds now
    then none
    else let ttl = transaction.expires_at_unix_seconds - now in if ltb 0 ttl then some ttl else none

-- The trait `AuthorizationTransactionStore`, over the state of the store.
pub record AuthorizationTransactionStore : Type 1 where
  pub State : Type 0
  pub Error : Type 0
  pub save : ℕ → PendingAuthorization → State → Result (Unit {0}) Error × State
  pub take : Text → State → Result (Option PendingAuthorization) Error × State

pub data InMemoryAuthorizationTransactionStoreError : Type 0 where
  state_unavailable capacity_exhausted duplicate_state : InMemoryAuthorizationTransactionStoreError

pub record InMemoryAuthorizationTransactionStore : Type 0 where
  pub transactions : List (Text × PendingAuthorization)
  pub poisoned : Bool

abbrev pub live : ℕ → PendingAuthorization → Bool
live now transaction = not (is_expired now transaction)

unfoldable pub save :
    ℕ
    → PendingAuthorization
    → InMemoryAuthorizationTransactionStore
    → Result (Unit {0}) InMemoryAuthorizationTransactionStoreError
      × InMemoryAuthorizationTransactionStore
save now transaction store =
    let kept = retain (live now) store.transactions in
    if store.poisoned
    then (err InMemoryAuthorizationTransactionStoreError.state_unavailable, store)
    else if contains_key eqb transaction.state kept
    then (
      err InMemoryAuthorizationTransactionStoreError.duplicate_state,
      record store { transactions = kept },
    )
    else if leb max_in_memory_transactions (length kept)
    then (
      err InMemoryAuthorizationTransactionStoreError.capacity_exhausted,
      record store { transactions = kept },
    )
    else (ok tt, record store { transactions = insert eqb transaction.state transaction kept })

unfoldable pub take :
    Text
    → InMemoryAuthorizationTransactionStore
    → Result (Option PendingAuthorization) InMemoryAuthorizationTransactionStoreError
      × InMemoryAuthorizationTransactionStore
take state store =
    if store.poisoned
    then (err InMemoryAuthorizationTransactionStoreError.state_unavailable, store)
    else (
      ok (get eqb state store.transactions),
      record store { transactions = remove eqb state store.transactions },
    )

-- The implementation of the trait.
abbrev pub in_memory : AuthorizationTransactionStore
in_memory = record {
  State = InMemoryAuthorizationTransactionStore;
  Error = InMemoryAuthorizationTransactionStoreError;
  save = save;
  take = take;
}
