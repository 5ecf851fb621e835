-- ===== src/Session/Manager/Rotation.antt =====
-- What the manager of crates/rustee-auth-session/src/model/manager.rs does on the store in memory.
use rustee_web_framework.Prelude.{
  ℕ, ◌+◌, ◌-◌, min, ltb, if◌then◌else◌, ◌≡◌, refl, ap, subst, ◌∙◌, inl, inr, false, none, some,
  List, [], ◌∷◌, arith, ◌==◌, ==_iff, Bool-cases, All,
}
use rustee_web_framework.Prelude.Result.{ok, Result-cases}
use rustee_web_framework.Text.Number.{u64_bound}
use rustee_web_framework.AssocMap.{
  get, insert, remove, retain, filter, contains_key, get-insert, get-insert_other,
}
use rustee_web_framework.AssocMap.Distinct.{
  Distinct, retain-Distinct, insert-Distinct, get-retain, get-retain_none, get-remove,
  get-remove_other,
}
use rustee_web_framework.Auth.Permission.{Principal}
use rustee_web_framework.Session.Record.{SessionId, UuidCrate, Session, is_expired, session_new}
use rustee_web_framework.Session.Cookie.{SessionCookieConfig}
use rustee_web_framework.Session.Memory.{
  InMemorySessionStore, same_id, live, save, load, delete, in_memory,
}
use rustee_web_framework.Session.Memory.Steps.{
  Call, save_call, load_call, delete_call, perform, run,
}
use rustee_web_framework.Session.Manager.{IssuedSession, Drawn, establish, rotate}

save_none :
    (now : ℕ) (id : SessionId) (session : Session) (store : InMemorySessionStore)
    → (id == session.id) ≡ false
    → get same_id id store.sessions ≡ none
    → get same_id id (save now session store).1.sessions ≡ none
unfolding save
save_none now id session store apart absent =
    let kept = get-retain_none same_id (live now) id store.sessions absent in
    let put =
      get-insert_other same_id ==_iff session.id id session (retain (live now) store.sessions)
        apart in
    ground (arith, absent, kept, put)

load_none :
    (now : ℕ) (id other : SessionId) (store : InMemorySessionStore)
    → get same_id id store.sessions ≡ none
    → get same_id id (load now other store).1.sessions ≡ none
unfolding load
load_none now id other store absent =
    ground (arith, get-retain_none same_id (live now) id store.sessions absent)

remove_none :
    (id other : SessionId) (sessions : List (SessionId × Session))
    → get same_id id sessions ≡ none
    → get same_id id (remove same_id other sessions) ≡ none
remove_none id other sessions absent = elim (Bool-cases (id == other)) [
  | inl at ↦
      subst (λ other. get same_id id (remove same_id other sessions) ≡ none)
        ((==_iff id other).0 at) (get-remove same_id ==_iff id sessions)
  | inr away ↦ get-remove_other same_id ==_iff other id sessions away ∙ absent
]

delete_none :
    (id other : SessionId) (store : InMemorySessionStore)
    → get same_id id store.sessions ≡ none
    → get same_id id (delete other store).1.sessions ≡ none
unfolding delete
delete_none id other store absent = ground (arith, remove_none id other store.sessions absent)

-- The call saves no session under the ID.
abbrev pub Spares : SessionId → Call → Type 0
Spares id (save_call now session) = (id == session.id) ≡ false
Spares id (load_call now other) = Unit
Spares id (delete_call now other) = Unit

perform_none :
    (id : SessionId) (call : Call) (store : InMemorySessionStore)
    → Spares id call
    → get same_id id store.sessions ≡ none
    → get same_id id (perform call store).1.sessions ≡ none
unfolding perform
perform_none id (save_call now session) store spares absent =
    save_none now id session store spares absent
perform_none id (load_call now other) store spares absent = load_none now id other store absent
perform_none id (delete_call now other) store spares absent = delete_none id other store absent

run_none :
    (id : SessionId) (calls : List Call) (store : InMemorySessionStore)
    → All (Spares id) calls
    → get same_id id store.sessions ≡ none
    → get same_id id (run calls store).1.sessions ≡ none
unfolding run
run_none id [] store spares absent = absent
run_none id (call ∷ calls) store (spares, rest) absent =
    run_none id calls (perform call store).1 rest (perform_none id call store spares absent)

delete_sound :
    (id : SessionId) (store : InMemorySessionStore)
    → store.poisoned ≡ false
    → delete id store ≡ (ok tt, record store { sessions = remove same_id id store.sessions })
unfolding delete
delete_sound id store sound = simp sound refl

module _ (uuids : UuidCrate) (cookie : SessionCookieConfig) where
  abbrev pub made : Drawn → Principal → Session
  made drawn principal =
      session_new drawn.created drawn.id drawn.csrf_token principal cookie.ttl_seconds

  establish-state :
      (drawn : Drawn) (principal : Principal) (store : InMemorySessionStore)
      → (establish uuids in_memory cookie drawn principal store).1
        ≡ (save drawn.saved (made drawn principal) store).1
  unfolding establish
  establish-state drawn principal store =
      elim (Result-cases (save drawn.saved (made drawn principal) store).0) [
        | inl (_, e) ↦ rw (e, establish) refl
        | inr (_, e) ↦ rw (e, establish) refl
      ]

  rotate-state :
      (previous : SessionId) (drawn : Drawn) (principal : Principal) (store : InMemorySessionStore)
      → store.poisoned ≡ false
      → rotate uuids in_memory cookie previous drawn principal store
        ≡ establish uuids in_memory cookie drawn principal
            (record store { sessions = remove same_id previous store.sessions })
  unfolding rotate
  rotate-state previous drawn principal store sound =
      let deleted = delete_sound previous store sound in
      let answered = ap (λ r. r.0) deleted in
      rw (rotate, answered)
        (ap (λ state. establish uuids in_memory cookie drawn principal state)
          (ap (λ r. r.1) deleted))

  -- Whether or not the new session could be saved, after a rotation the ID before it is gone from
  -- a store whose lock is sound, and it stays away under any calls that do not save a session under
  -- it. The new session's ID is another.
  pub rotate-run_none :
      (previous : SessionId) (drawn : Drawn) (principal : Principal) (store : InMemorySessionStore)
      (calls : List Call)
      → store.poisoned ≡ false
      → (previous == drawn.id) ≡ false
      → All (Spares previous) calls
      → get same_id previous
          (run calls (rotate uuids in_memory cookie previous drawn principal store).1).1.sessions
        ≡ none
  unfolding session_new
  rotate-run_none previous drawn principal store calls sound apart spares =
      let cut = record store { sessions = remove same_id previous store.sessions } in
      let gone =
        save_none drawn.saved previous (made drawn principal) cut apart
          (get-remove same_id ==_iff previous store.sessions) in
      let there =
        ap (λ r. r.1) (rotate-state previous drawn principal store sound)
        ∙ establish-state drawn principal cut in
      run_none previous calls (rotate uuids in_memory cookie previous drawn principal store).1
        spares (ap (λ s. get same_id previous s.sessions) there ∙ gone)

save-inserts :
    (now : ℕ) (session : Session) (store : InMemorySessionStore)
    → (save now session store).0 ≡ ok tt
    → ((save now session store).1 ≡ record store {
      sessions = insert same_id session.id session (retain (live now) store.sessions);
    })
      × (store.poisoned ≡ false)
unfolding save contains_key
save-inserts now session store h = elim (Bool-cases store.poisoned) [
  | inl broken ↦ absurd (ground (arith, broken, h))
  | inr sound ↦ elim (Bool-cases (is_expired now session)) [
    | inl dead ↦ absurd (ground (arith, sound, dead, h))
    | inr fresh ↦ (ground (arith, sound, fresh, h), sound)
  ]
]

module _ (uuids : UuidCrate) (cookie : SessionCookieConfig) where
  establish-saved :
      (drawn : Drawn) (principal : Principal) (store : InMemorySessionStore)
      (issued : IssuedSession)
      → (establish uuids in_memory cookie drawn principal store).0 ≡ ok issued
      → (save drawn.saved (made uuids cookie drawn principal) store).0 ≡ ok tt
  unfolding establish
  establish-saved drawn principal store issued h =
      elim (Result-cases (save drawn.saved (made uuids cookie drawn principal) store).0) [
        | inl (tt, e) ↦ e
        | inr (error, e) ↦ let broken = (rw (e, establish) at h) in absurd (ground (arith, broken))
      ]

  -- What the load after a successful `establish` finds under the new ID.
  load-made :
      (now : ℕ) (drawn : Drawn) (principal : Principal) (store : InMemorySessionStore)
      (issued : IssuedSession)
      → Distinct same_id store.sessions
      → (establish uuids in_memory cookie drawn principal store).0 ≡ ok issued
      → (load now drawn.id (establish uuids in_memory cookie drawn principal store).1).0
        ≡ ok (filter (live now) (some (made uuids cookie drawn principal)))
  unfolding load session_new
  load-made now drawn principal store issued distinct h =
      let session = made uuids cookie drawn principal in
      let kept = retain (live drawn.saved) store.sessions in
      let put = insert same_id session.id session kept in
      let (inserts, sound) =
        save-inserts drawn.saved session store (establish-saved drawn principal store issued h) in
      let there = establish-state uuids cookie drawn principal store ∙ inserts in
      let still =
        insert-Distinct same_id ==_iff session.id session kept
          (retain-Distinct same_id (live drawn.saved) store.sessions distinct) in
      let found =
        get-retain same_id ==_iff (live now) session.id put still
        ∙ ap (filter (live now)) (get-insert same_id ==_iff session.id session kept) in
      ap (λ state. (load now drawn.id state).0) there ∙ simp sound (ap ok found)

  establish-token :
      (drawn : Drawn) (principal : Principal) (store : InMemorySessionStore)
      (issued : IssuedSession)
      → (establish uuids in_memory cookie drawn principal store).0 ≡ ok issued
      → issued.csrf_token ≡ drawn.csrf_token
  unfolding establish session_new
  establish-token drawn principal store issued h =
      elim (Result-cases (save drawn.saved (made uuids cookie drawn principal) store).0) [
        | inl (tt, e) ↦ let answered = (rw (e, establish) at h) in ground (arith, answered)
        | inr (error, e) ↦ let broken = (rw (e, establish) at h) in absurd (ground (arith, broken))
      ]

  -- On a store in which no ID stands twice, a successful `establish` gives out the token that was
  -- drawn, and the load that follows finds under the drawn ID the session with the given principal
  -- and that token, if the time of the load is before the end of the session, and nothing
  -- otherwise. The session ends the cookie's lifetime after it was made, or at the last second of a
  -- `u64`.
  pub load-establish :
      (now : ℕ) (drawn : Drawn) (principal : Principal) (store : InMemorySessionStore)
      (issued : IssuedSession)
      → Distinct same_id store.sessions
      → (establish uuids in_memory cookie drawn principal store).0 ≡ ok issued
      → let end = min (drawn.created + cookie.ttl_seconds) (u64_bound - 1) in
        let session : Session = record {
          id = drawn.id;
          principal = principal;
          csrf_token = drawn.csrf_token;
          expires_at_unix_seconds = end;
        } in
        (issued.csrf_token ≡ drawn.csrf_token)
        × ((load now drawn.id (establish uuids in_memory cookie drawn principal store).1).0
            ≡ ok (if ltb now end then some session else none))
  unfolding session_new
  load-establish now drawn principal store issued distinct h = (
    establish-token drawn principal store issued h,
    load-made now drawn principal store issued distinct h ∙ ap ok (ground arith),
  )
