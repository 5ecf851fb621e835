-- ===== src/Session/Service.antt =====
-- crates/rustee-auth-session/src/middleware.rs and middleware/csrf.rs: the service that restores a
-- session from the request's cookie, the extractor of its user, and the check of CSRF tokens.
pub mod Guarded
pub mod Refused
use rustee_web_framework.Prelude.{
  ℕ, Bool, true, false, not, ◌&&◌, ◌||◌, Option, none, some, List, [], ◌∷◌, ◌==◌, if◌then◌else◌,
}
use rustee_web_framework.Prelude.Result.{Result, ok, err}
use rustee_web_framework.Text.{Text, eqb, codes}
use rustee_web_framework.Text.Split.{split, split_once}
use rustee_web_framework.Text.Trim.{trim}
use rustee_web_framework.AssocMap.{filter}
use rustee_web_framework.Static.Header.{HeaderValue}
use rustee_web_framework.Auth.ConstantTime.{constant_time_eq}
use rustee_web_framework.Auth.Permission.{Principal}
use rustee_web_framework.Session.Record.{SessionId, UuidCrate, Session, parse, is_expired}
use rustee_web_framework.Session.Memory.{SessionStore}

pub record SessionContext : Type 0 where
  pub id : SessionId
  pub csrf_token : Text

-- What the services read and write of a request's extensions.
pub record Extensions : Type 0 where
  pub principal : Option Principal
  pub session : Option SessionContext

-- The one value of a header that may stand once only, if it is readable.
unfoldable pub only_value : List HeaderValue → Option Text
only_value [] = none
only_value (value ∷ []) = value.text
only_value (value ∷ other ∷ values) = none

-- The values of the cookies with the name, of the parts of a header.
unfoldable pub matching_values : Text → List Text → List Text
matching_values name [] = []
matching_values name (part ∷ parts) =
    let rest = matching_values name parts in
    elim (split_once b'=' (trim part)) [
      | none ↦ rest
      | some (key, value) ↦ if eqb key name then value ∷ rest else rest
    ]

abbrev pub only : List Text → Option Text
only [] = none
only (value ∷ []) = some value
only (value ∷ other ∷ values) = none

unfoldable pub session_id : UuidCrate → List HeaderValue → Text → Option SessionId
unfolding only_value matching_values
session_id uuids cookies name = elim (only_value cookies) [
  | none ↦ none
  | some cookie ↦ elim (only (matching_values name (split b';' cookie))) [
    | none ↦ none
    | some value ↦ parse uuids value
  ]
]

-- `Error` of crates/rustee-core/src/response.rs, which `into_response` turns into a response.
pub record ErrorResponse : Type 0 where
  pub status : ℕ
  pub code : Text
  pub message : Text

unfoldable pub session_store_response : ErrorResponse
session_store_response = record {
  status = 503;
  code = codes "session_unavailable";
  message = codes "session service is unavailable";
}

-- A service answers itself, or calls the inner service with the request's extensions.
pub data SessionOutcome : Type 0 where
  respond : ErrorResponse → SessionOutcome
  call_inner : Extensions → SessionOutcome

-- `session.filter(…)`.
unfoldable pub is_usable : ℕ → SessionId → Session → Bool
is_usable now id session = session.id == id && not (is_expired now session)

-- What the service inserts for the session that it found, if that is usable.
unfoldable pub restored : ℕ → SessionId → Option Session → Extensions → Extensions
unfolding is_usable
restored now id found extensions = elim (filter (is_usable now id) found) [
  | none ↦ extensions
  | some session ↦ record {
    principal = some session.principal;
    session = some (record { id = id; csrf_token = session.csrf_token });
  }
]

-- `SessionService::call`. The clock shows `now` in the store, and `later` in the service.
module _ (uuids : UuidCrate) (store : SessionStore) where
  unfoldable pub call :
      Text → ℕ → ℕ → List HeaderValue → Extensions → store.State → SessionOutcome × store.State
  unfolding session_id restored is_usable
  call cookie_name now later cookies extensions state =
      elim (session_id uuids cookies cookie_name) [
        | none ↦ (SessionOutcome.call_inner extensions, state)
        | some id ↦
            let answer = store.load now id state in
            elim answer.0 [
              | err e ↦ (SessionOutcome.respond session_store_response, answer.1)
              | ok found ↦
                  (SessionOutcome.call_inner (restored later id found extensions), answer.1)
            ]
      ]

pub record SessionUser : Type 0 where
  pub principal : Principal
  pub id : SessionId

pub data ExtractError : Type 0 where
  unauthenticated : ExtractError

-- `SessionUser::from_request`.
unfoldable pub session_user : Extensions → Result SessionUser ExtractError
session_user extensions = elim extensions.principal [
  | none ↦ err unauthenticated
  | some principal ↦ elim extensions.session [
    | none ↦ err unauthenticated
    | some context ↦ ok (record { principal = principal; id = context.id })
  ]
]

-- The method by its name.
unfoldable pub is_safe_method : Text → Bool
is_safe_method method =
    eqb method (codes "GET")
    || eqb method (codes "HEAD")
    || eqb method (codes "OPTIONS")
    || eqb method (codes "TRACE")

unfoldable pub csrf_header_value : List HeaderValue → Option Text
unfolding only_value
csrf_header_value tokens = only_value tokens

unfoldable pub csrf_response : ErrorResponse
csrf_response = record {
  status = 403;
  code = codes "csrf_rejected";
  message = codes "CSRF validation failed";
}

pub data CsrfOutcome : Type 0 where
  respond : ErrorResponse → CsrfOutcome
  call_inner : CsrfOutcome

-- `CsrfService::call`, on the values of `x-csrf-token`. Both tokens are ASCII, so that their bytes
-- are their code points.
unfoldable pub csrf_call : Text → List HeaderValue → Extensions → CsrfOutcome
unfolding is_safe_method csrf_header_value
csrf_call method tokens extensions =
    if is_safe_method method then CsrfOutcome.call_inner else elim extensions.session [
      | none ↦ CsrfOutcome.call_inner
      | some session ↦
          let valid : Bool = elim (csrf_header_value tokens) [
            | none ↦ false
            | some token ↦ constant_time_eq token session.csrf_token
          ] in
          if not valid then CsrfOutcome.respond csrf_response else CsrfOutcome.call_inner
    ]

-- The answer to a request behind both services, `CsrfLayer` inside `SessionLayer`.
pub data GuardedOutcome : Type 0 where
  refused : ErrorResponse → GuardedOutcome
  reached : Extensions → GuardedOutcome

abbrev pub behind : SessionOutcome → Text → List HeaderValue → GuardedOutcome
behind (SessionOutcome.respond response) method tokens = refused response
behind (SessionOutcome.call_inner extensions) method tokens =
    elim (csrf_call method tokens extensions) [
      | CsrfOutcome.respond response ↦ refused response
      | CsrfOutcome.call_inner ↦ reached extensions
    ]
