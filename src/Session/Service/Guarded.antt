-- ===== src/Session/Service/Guarded.antt =====
-- Which requests pass the services of crates/rustee-auth-session/src/middleware.rs and
-- middleware/csrf.rs.
use rustee_web_framework.Prelude.{
  ℕ, ◌≡◌, refl, sym, ap, subst, ◌∙◌, ◌↔◌, ◌⊎◌, inl, inr, true, false, Option, none, some, List,
  arith, ==_iff, Bool-cases, Option-cases,
}
use rustee_web_framework.Prelude.Result.{ok, err, Result-cases}
use rustee_web_framework.Text.{Text}
use rustee_web_framework.Static.Header.{HeaderValue}
use rustee_web_framework.Auth.ConstantTime.{constant_time_eq_iff}
use rustee_web_framework.Auth.Permission.{Principal}
use rustee_web_framework.Session.Record.{SessionId, UuidCrate, Session, is_expired}
use rustee_web_framework.Session.Memory.{SessionStore}
use rustee_web_framework.Session.Service.{
  ErrorResponse, session_store_response, SessionContext, Extensions, session_id, SessionOutcome,
  call, restored, is_usable, is_safe_method, csrf_header_value, CsrfOutcome, csrf_call,
  GuardedOutcome, behind,
}

pub csrf_call_iff :
    (method : Text) (tokens : List HeaderValue) (extensions : Extensions) (session : SessionContext)
    → is_safe_method method ≡ false
    → extensions.session ≡ some session
    → (csrf_call method tokens extensions ≡ CsrfOutcome.call_inner)
      ↔ (csrf_header_value tokens ≡ some session.csrf_token)
unfolding csrf_call
csrf_call_iff method tokens extensions session unsafe known =
    elim (Option-cases (csrf_header_value tokens)) [
      | inl missing ↦ (
        λ h. absurd (ground (arith, unsafe, known, missing, h)),
        λ h. absurd (ground (arith, missing, h)),
      )
      | inr (token, there) ↦ (
        λ h.
            let same : (token ≡ session.csrf_token) =
              ground
                (arith, unsafe, known, there, h, constant_time_eq_iff token session.csrf_token) in
            there ∙ ap some same,
        λ h.
            let same : (token ≡ session.csrf_token) = ground (arith, there, h) in
            ground
              (arith, unsafe, known, there, same, constant_time_eq_iff token session.csrf_token),
      )
    ]

abbrev pub anonymous : Extensions
anonymous = record { principal = none; session = none }

abbrev pub signed_in : Principal → SessionContext → Extensions
signed_in principal context = record { principal = some principal; session = some context }

pub csrf_call-anonymous :
    (method : Text) (tokens : List HeaderValue)
    → csrf_call method tokens anonymous ≡ CsrfOutcome.call_inner
unfolding csrf_call
csrf_call-anonymous method tokens = ground arith

pub CsrfOutcome-cases :
    (outcome : CsrfOutcome)
    → ((response : ErrorResponse) × (outcome ≡ CsrfOutcome.respond response))
      ⊎ (outcome ≡ CsrfOutcome.call_inner)
CsrfOutcome-cases (CsrfOutcome.respond response) = inl (response, refl)
CsrfOutcome-cases CsrfOutcome.call_inner = inr refl

behind_iff :
    (outcome : SessionOutcome) (extensions : Extensions) (method : Text) (tokens : List HeaderValue)
    → (behind outcome method tokens ≡ GuardedOutcome.reached extensions) ↔ (
        (outcome ≡ SessionOutcome.call_inner extensions)
        × (csrf_call method tokens extensions ≡ CsrfOutcome.call_inner))
behind_iff (SessionOutcome.respond response) extensions method tokens =
    (λ h. absurd (ground (arith, h)), λ (h, _). absurd (ground (arith, h)))
behind_iff (SessionOutcome.call_inner given) extensions method tokens = (
  λ h. elim (CsrfOutcome-cases (csrf_call method tokens given)) [
    | inl (response, rejects) ↦ absurd (ground (arith, rejects, h))
    | inr admits ↦
        let same : (given ≡ extensions) = ground (arith, admits, h) in
        (
          ap SessionOutcome.call_inner same,
          subst (λ e. csrf_call method tokens e ≡ CsrfOutcome.call_inner) same admits,
        )
  ],
  λ (e, admits).
      let same : (given ≡ extensions) = ground (arith, e) in
      subst
        (λ g.
          behind (SessionOutcome.call_inner g) method tokens ≡ GuardedOutcome.reached extensions)
        (sym same) (ground (arith, admits)),
)

-- What stands behind a request that reaches the handler with this principal and context.
abbrev pub Restores :
    (uuids : UuidCrate) (store : SessionStore)
    → Text
    → ℕ
    → ℕ
    → List HeaderValue
    → store.State
    → Principal
    → SessionContext
    → Type 0
Restores uuids store name now later cookies state principal context =
    (session_id uuids cookies name ≡ some context.id)
    × (found : Session) × ((store.load now context.id state).0 ≡ ok (some found))
    × (found.id ≡ context.id)
    × (is_expired later found ≡ false)
    × (found.principal ≡ principal)
    × (found.csrf_token ≡ context.csrf_token)

is_usable_iff :
    (later : ℕ) (id : SessionId) (session : Session)
    → (is_usable later id session ≡ true) ↔ ((session.id ≡ id) × (is_expired later session ≡ false))
unfolding is_usable
is_usable_iff later id session = ground (arith, ==_iff session.id id)

restored_iff :
    (later : ℕ) (id : SessionId) (found : Option Session) (principal : Principal)
    (context : SessionContext)
    → (restored later id found anonymous ≡ signed_in principal context) ↔ (
        (id ≡ context.id)
        × (session : Session) × (found ≡ some session)
        × (is_usable later id session ≡ true)
        × (session.principal ≡ principal)
        × (session.csrf_token ≡ context.csrf_token))
unfolding restored
restored_iff later id none principal context =
    (λ h. absurd (ground (arith, h)), λ (_, session, e, _, _, _). absurd (ground (arith, e)))
restored_iff later id (some session) principal context =
    elim (Bool-cases (is_usable later id session)) [
      | inl usable ↦ (
        λ h.
            let made : (signed_in session.principal
                  (record { id = id; csrf_token = session.csrf_token })
                ≡ signed_in principal context) =
              (simp (usable, restored) at h) in
            (
              ground (arith, made),
              session,
              refl,
              usable,
              ground (arith, made),
              ground (arith, made),
            ),
        λ (same, other, e, _, who, token).
            let equal : (session ≡ other) = ground (arith, e) in
            let named = ap (λ s. s.principal) equal ∙ who in
            let secret = ap (λ s. s.csrf_token) equal ∙ token in
            simp (usable, restored) (simp (named, secret, same) refl),
      )
      | inr stale ↦ (
        λ h.
            let made : (anonymous ≡ signed_in principal context) = (simp (stale, restored) at h) in
            absurd (ground (arith, made)),
        λ (same, other, e, usable, _, _). absurd (ground (arith, e, stale, usable)),
      )
    ]

module _ (uuids : UuidCrate) (store : SessionStore) where
  -- The three ways through the service.
  pub call_without :
      (name : Text) (now later : ℕ) (cookies : List HeaderValue) (extensions : Extensions)
      (state : store.State)
      → session_id uuids cookies name ≡ none
      → (call uuids store name now later cookies extensions state).0
        ≡ SessionOutcome.call_inner extensions
  unfolding call
  call_without name now later cookies extensions state missing = rw (call, missing) refl

  pub call_failed :
      (name : Text) (now later : ℕ) (cookies : List HeaderValue) (extensions : Extensions)
      (state : store.State) (id : SessionId) (e : store.Error)
      → session_id uuids cookies name ≡ some id
      → (store.load now id state).0 ≡ err e
      → (call uuids store name now later cookies extensions state).0
        ≡ SessionOutcome.respond session_store_response
  unfolding call
  call_failed name now later cookies extensions state id e there failed =
      rw (call, there, failed) refl

  pub call_loaded :
      (name : Text) (now later : ℕ) (cookies : List HeaderValue) (extensions : Extensions)
      (state : store.State) (id : SessionId) (found : Option Session)
      → session_id uuids cookies name ≡ some id
      → (store.load now id state).0 ≡ ok found
      → (call uuids store name now later cookies extensions state).0
        ≡ SessionOutcome.call_inner (restored later id found extensions)
  unfolding call restored
  call_loaded name now later cookies extensions state id found there answered =
      rw (call, there, answered) refl

  pub call-signed_in_iff :
      (name : Text) (now later : ℕ) (cookies : List HeaderValue) (state : store.State)
      (principal : Principal) (context : SessionContext)
      → ((call uuids store name now later cookies anonymous state).0
          ≡ SessionOutcome.call_inner (signed_in principal context))
        ↔ Restores uuids store name now later cookies state principal context
  call-signed_in_iff name now later cookies state principal context = (
    λ h. elim (Option-cases (session_id uuids cookies name)) [
      | inl missing ↦
          let passed = call_without name now later cookies anonymous state missing in
          absurd (ground (arith, passed, h))
      | inr (id, there) ↦ elim (Result-cases (store.load now id state).0) [
        | inl (found, answered) ↦
            let passed =
              call_loaded name now later cookies anonymous state id found there answered in
            let (same, session, known, usable, who, token) =
              (restored_iff later id found principal context).0 (ground (arith, passed, h)) in
            let loaded = answered ∙ ap ok known in
            (
              there ∙ ap some same,
              session,
              subst (λ id. (store.load now id state).0 ≡ ok (some session)) same loaded,
              (let (named, alive) = (is_usable_iff later id session).0 usable in named ∙ same),
              (let (named, alive) = (is_usable_iff later id session).0 usable in alive),
              who,
              token,
            )
        | inr (e, failed) ↦
            let broken = call_failed name now later cookies anonymous state id e there failed in
            absurd (ground (arith, broken, h))
      ]
    ],
    λ (there, found, answered, named, alive, who, token).
        let usable = (is_usable_iff later context.id found).1 (named, alive) in
        call_loaded name now later cookies anonymous state context.id (some found) there answered
        ∙ ap SessionOutcome.call_inner (
            (restored_iff later context.id (some found) principal context).1
              (refl, found, refl, usable, who, token)),
  )

  -- A request with an unsafe method, that nothing has authenticated before, reaches the handler
  -- behind both services as this principal with this session exactly where all of the following
  -- hold: `session_id` reads the session's ID from its cookies, the store loads a session under that
  -- ID which has it and is not expired, the principal and the token are that session's, and
  -- `csrf_header_value` reads that token from the request.
  pub behind-reached_iff :
      (name method : Text) (now later : ℕ) (cookies tokens : List HeaderValue) (state : store.State)
      (principal : Principal) (context : SessionContext)
      → is_safe_method method ≡ false
      → (behind (call uuids store name now later cookies anonymous state).0 method tokens
          ≡ GuardedOutcome.reached (signed_in principal context))
        ↔ (Restores uuids store name now later cookies state principal context
            × (csrf_header_value tokens ≡ some context.csrf_token))
  behind-reached_iff name method now later cookies tokens state principal context unsafe =
      let outcome = (call uuids store name now later cookies anonymous state).0 in
      let (to, from) = behind_iff outcome (signed_in principal context) method tokens in
      let (to_session, from_session) =
        call-signed_in_iff name now later cookies state principal context in
      let (to_token, from_token) =
        csrf_call_iff method tokens (signed_in principal context) context unsafe refl in
      (
        λ h. let (restores, admitted) = to h in (to_session restores, to_token admitted),
        λ (restores, token). from (from_session restores, from_token token),
      )
