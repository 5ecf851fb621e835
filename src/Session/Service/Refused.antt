-- ===== src/Session/Service/Refused.antt =====
-- Which requests the services of crates/rustee-auth-session/src/middleware.rs and
-- middleware/csrf.rs answer themselves, and how.
use rustee_web_framework.Prelude.{
  ℕ, ◌≡◌, ◌≢◌, refl, sym, ap, subst, ◌∙◌, ◌↔◌, ◌⊎◌, inl, inr, true, false, Option, none, some, List,
  arith, Bool-cases, Option-cases,
}
use rustee_web_framework.Prelude.Result.{err, Result-cases}
use rustee_web_framework.Text.{Text, eqb_iff, codes}
use rustee_web_framework.Static.Header.{HeaderValue}
use rustee_web_framework.Auth.Permission.{Principal}
use rustee_web_framework.Session.Record.{SessionId, UuidCrate, Session}
use rustee_web_framework.Session.Memory.{SessionStore}
use rustee_web_framework.Session.Service.{
  ErrorResponse, session_store_response, csrf_response, SessionContext, Extensions, session_id,
  SessionOutcome, call, restored, is_usable, is_safe_method, csrf_header_value, CsrfOutcome,
  csrf_call, GuardedOutcome, behind,
}
use rustee_web_framework.Session.Service.Guarded.{
  anonymous, signed_in, csrf_call_iff, csrf_call-anonymous, CsrfOutcome-cases, Restores,
  call_without, call_failed, call_loaded, call-signed_in_iff,
}

-- A method that may change something.
abbrev pub IsUnsafe : Text → Type 0
IsUnsafe method =
    (method ≢ codes "GET")
    × (method ≢ codes "HEAD")
    × (method ≢ codes "OPTIONS")
    × (method ≢ codes "TRACE")

IsUnsafe-iff : (method : Text) → (is_safe_method method ≡ false) ↔ IsUnsafe method
unfolding is_safe_method
IsUnsafe-iff method = ground (
  arith,
  eqb_iff method (codes "GET"),
  eqb_iff method (codes "HEAD"),
  eqb_iff method (codes "OPTIONS"),
  eqb_iff method (codes "TRACE"),
)

csrf_call-safe :
    (method : Text) (tokens : List HeaderValue) (extensions : Extensions)
    → is_safe_method method ≡ true
    → csrf_call method tokens extensions ≡ CsrfOutcome.call_inner
unfolding csrf_call
csrf_call-safe method tokens extensions safe = ground (arith, safe)

-- The service has one answer of its own.
csrf_call-respond :
    (method : Text) (tokens : List HeaderValue) (extensions : Extensions) (response : ErrorResponse)
    → csrf_call method tokens extensions ≡ CsrfOutcome.respond response
    → csrf_response ≡ response
unfolding csrf_call
csrf_call-respond method tokens extensions response h = ground (arith, h)

restored-cases :
    (later : ℕ) (id : SessionId) (found : Option Session)
    → (restored later id found anonymous ≡ anonymous)
      ⊎ ((principal : Principal) × (context : SessionContext) × (restored later id found anonymous
            ≡ signed_in principal context))
unfolding restored
restored-cases later id none = inl refl
restored-cases later id (some session) = elim (Bool-cases (is_usable later id session)) [
  | inl usable ↦ inr (
    session.principal,
    record { id = id; csrf_token = session.csrf_token },
    simp (usable, restored) refl,
  )
  | inr stale ↦ inl (simp (stale, restored) refl)
]

behind_outcome :
    (outcome other : SessionOutcome) (method : Text) (tokens : List HeaderValue)
    (answer : GuardedOutcome)
    → outcome ≡ other
    → behind outcome method tokens ≡ answer
    → behind other method tokens ≡ answer
behind_outcome outcome other method tokens answer same h =
    subst (λ o. behind o method tokens ≡ answer) same h

-- What the check of the token refuses.
refused_iff :
    (method : Text) (tokens : List HeaderValue) (principal : Principal) (context : SessionContext)
    (response : ErrorResponse)
    → (behind (SessionOutcome.call_inner (signed_in principal context)) method tokens
        ≡ GuardedOutcome.refused response)
      ↔ ((csrf_response ≡ response)
          × (is_safe_method method ≡ false)
          × (csrf_header_value tokens ≢ some context.csrf_token))
refused_iff method tokens principal context response =
    elim (CsrfOutcome-cases (csrf_call method tokens (signed_in principal context))) [
      | inl (given, rejects) ↦ (
        λ h.
            let same : (given ≡ response) = ground (arith, rejects, h) in
            let fixed =
              csrf_call-respond method tokens (signed_in principal context) given rejects in
            elim (Bool-cases (is_safe_method method)) [
              | inl safe ↦
                  let passed = csrf_call-safe method tokens (signed_in principal context) safe in
                  absurd (ground (arith, passed, rejects))
              | inr unsafe ↦ (
                fixed ∙ same,
                unsafe,
                λ token.
                    let passed =
                      (csrf_call_iff method tokens (signed_in principal context) context unsafe
                          refl).1
                        token in
                    absurd (ground (arith, passed, rejects)),
              )
            ],
        λ (same, _, _).
            let fixed =
              csrf_call-respond method tokens (signed_in principal context) given rejects in
            let equal : (given ≡ response) = sym fixed ∙ same in ground (arith, rejects, equal),
      )
      | inr passes ↦ (
        λ h. absurd (ground (arith, passes, h)),
        λ (_, unsafe, mismatch). absurd (
            mismatch (
              (csrf_call_iff method tokens (signed_in principal context) context unsafe refl).0
                passes)),
      )
    ]

module _ (uuids : UuidCrate) (store : SessionStore) where
  -- The cookies name a session that the store fails to load.
  abbrev pub Fails : Text → ℕ → List HeaderValue → store.State → Type 0
  Fails name now cookies state =
      (id : SessionId) × (session_id uuids cookies name ≡ some id)
      × (e : store.Error) × ((store.load now id state).0 ≡ err e)

  call-cases :
      (name : Text) (now later : ℕ) (cookies : List HeaderValue) (state : store.State)
      → (((call uuids store name now later cookies anonymous state).0
            ≡ SessionOutcome.respond session_store_response)
          × Fails name now cookies state)
        ⊎ (((call uuids store name now later cookies anonymous state).0
              ≡ SessionOutcome.call_inner anonymous)
            ⊎ ((principal : Principal) × (context : SessionContext) × ((call uuids store name now
                    later cookies anonymous state).0
                  ≡ SessionOutcome.call_inner (signed_in principal context))))
  call-cases name now later cookies state = elim (Option-cases (session_id uuids cookies name)) [
    | inl missing ↦
        inr (inl (call_without uuids store name now later cookies anonymous state missing))
    | inr (id, there) ↦ elim (Result-cases (store.load now id state).0) [
      | inr (e, failed) ↦ inl (
        call_failed uuids store name now later cookies anonymous state id e there failed,
        (id, there, e, failed),
      )
      | inl (found, answered) ↦
          let passed =
            call_loaded uuids store name now later cookies anonymous state id found there
              answered in
          elim (restored-cases later id found) [
            | inl nobody ↦ inr (inl (passed ∙ ap SessionOutcome.call_inner nobody))
            | inr (principal, context, known) ↦
                inr (inr (principal, context, passed ∙ ap SessionOutcome.call_inner known))
          ]
    ]
  ]

  -- A request that nothing has authenticated before is answered by the two services themselves
  -- exactly in these two cases, with these responses: with 503 where `session_id` reads the ID of a
  -- session from its cookies and the store fails to load it, and with 403 where its method is none
  -- of GET, HEAD, OPTIONS and TRACE, a session is restored, and what `csrf_header_value` reads is
  -- not that session's token.
  pub behind-refused_iff :
      (name method : Text) (now later : ℕ) (cookies tokens : List HeaderValue) (state : store.State)
      (response : ErrorResponse)
      → (behind (call uuids store name now later cookies anonymous state).0 method tokens
          ≡ GuardedOutcome.refused response)
        ↔ (((record {
          status = 503;
          code = codes "session_unavailable";
          message = codes "session service is unavailable";
        }
                ≡ response)
              × Fails name now cookies state)
            ⊎ ((record {
              status = 403;
              code = codes "csrf_rejected";
              message = codes "CSRF validation failed";
            }
                  ≡ response)
                × IsUnsafe method
                × (principal : Principal) × (context : SessionContext) × Restores uuids store name
                    now later cookies state principal context
                × (csrf_header_value tokens ≢ some context.csrf_token)))
  unfolding session_store_response csrf_response
  behind-refused_iff name method now later cookies tokens state response =
      let outcome = (call uuids store name now later cookies anonymous state).0 in
      (
        λ h. elim (call-cases name now later cookies state) [
          | inl (unavailable, fails) ↦
              let shown : (session_store_response ≡ response) = ground (arith, unavailable, h) in
              inl (shown, fails)
          | inr (inl passed) ↦
              let admitted = csrf_call-anonymous method tokens in
              absurd (ground (arith, passed, admitted, h))
          | inr (inr (principal, context, known)) ↦
              let (same, unsafe, mismatch) =
                (refused_iff method tokens principal context response).0
                  (behind_outcome outcome _ method tokens _ known h) in
              inr (
                same,
                (IsUnsafe-iff method).0 unsafe,
                principal,
                context,
                (call-signed_in_iff uuids store name now later cookies state principal context).0
                    known,
                mismatch,
              )
        ],
        elim [
          | inl (shown, (id, there, e, failed)) ↦
              let unavailable =
                call_failed uuids store name now later cookies anonymous state id e there failed in
              behind_outcome _ outcome method tokens _ (sym unavailable)
                (ap GuardedOutcome.refused shown)
          | inr (same, unsafe, principal, context, restores, mismatch) ↦
              let known =
                (call-signed_in_iff uuids store name now later cookies state principal context).1
                  restores in
              behind_outcome _ outcome method tokens _ (sym known) (
                (refused_iff method tokens principal context response).1
                  (same, (IsUnsafe-iff method).1 unsafe, mismatch))
        ],
      )
