-- ===== src/Session/Memory/Refines.antt =====
-- The session store of crates/rustee-auth-session/src/model/in_memory.rs keeps the contract of
-- model/manager.rs.
use rustee_web_framework.Prelude.{
  ℕ, ◌≤◌, ◌≡◌, ◌≢◌, refl, sym, ap, subst, ◌∙◌, inl, inr, true, false, Option, none, some, List, [],
  ◌∷◌, arith, leb, ◌==◌, ==_iff, length, Bool-cases, Option-cases, All, All-map_lem, any, leb→le,
}
use rustee_web_framework.AssocMap.{
  get, insert, remove, retain, filter, contains_key, get-insert, get-insert_other,
}
use rustee_web_framework.AssocMap.Distinct.{
  Distinct, retain-Distinct, remove-Distinct, insert-Distinct, get-retain, get-remove,
  get-remove_other,
}
use rustee_web_framework.Session.Record.{SessionId, Session, is_expired}
use rustee_web_framework.Session.Memory.{
  max_in_memory_sessions, InMemorySessionStore, same_id, live, save, load, delete,
}
use rustee_web_framework.Session.Memory.Steps.{
  Call, save_call, load_call, delete_call, time, Answer, loaded, perform, run, Ordered, Saved,
  written, Unique, Full, Allowed, unavailable, expired, full, saves, loads, deletes, Behaves, stop,
  next, Implements, answer, answer_load,
}

abbrev Entries : Type 0
Entries = List (SessionId × Session)

filter_later :
    (now later : ℕ) (found : Option Session)
    → now ≤ later
    → filter (live later) found ≡ filter (live later) (filter (live now) found)
filter_later now later none h = refl
filter_later now later (some session) h = ground arith

later-Implements :
    (now later : ℕ) (sessions : Entries) (saved : Saved)
    → now ≤ later
    → Implements now sessions saved
    → Implements later sessions saved
later-Implements now later sessions saved h (distinct, agree) = (
  distinct,
  λ id.
      filter_later now later (get same_id id sessions) h
      ∙ ap (filter (live later)) (agree id)
      ∙ sym (filter_later now later (saved id) h),
)

-- Dropping the expired sessions changes nothing that the contract sees.
retain-Implements :
    (now : ℕ) (sessions : Entries) (saved : Saved)
    → Implements now sessions saved
    → Implements now (retain (live now) sessions) saved
retain-Implements now sessions saved (distinct, agree) = (
  retain-Distinct same_id (live now) sessions distinct,
  λ id.
      ap (filter (live now)) (get-retain same_id ==_iff (live now) id sessions distinct)
      ∙ sym (filter_later now now (get same_id id sessions) (omega arith))
      ∙ agree id,
)

insert-Implements :
    (now : ℕ) (session : Session) (sessions : Entries) (saved : Saved)
    → Implements now sessions saved
    → Implements now
        (insert same_id session.id session sessions)
        (written session.id (some session) saved)
insert-Implements now session sessions saved (distinct, agree) = (
  insert-Distinct same_id ==_iff session.id session sessions distinct,
  λ id. elim (Bool-cases (id == session.id)) [
    | inl at ↦
        let equal = (==_iff id session.id).0 at in
        let there = get-insert same_id ==_iff session.id session sessions in
        rw (at, equal, there) refl
    | inr away ↦
        let there = get-insert_other same_id ==_iff session.id id session sessions away in
        rw (away, there) (agree id)
  ],
)

remove-Implements :
    (now : ℕ) (id : SessionId) (sessions : Entries) (saved : Saved)
    → Implements now sessions saved
    → Implements now (remove same_id id sessions) (written id none saved)
remove-Implements now id sessions saved (distinct, agree) = (
  remove-Distinct same_id ==_iff id sessions distinct,
  λ other. elim (Bool-cases (other == id)) [
    | inl at ↦
        let equal = (==_iff other id).0 at in
        let gone = get-remove same_id ==_iff id sessions in rw (at, equal, gone) refl
    | inr away ↦
        let there = get-remove_other same_id ==_iff id other sessions away in
        rw (away, there) (agree other)
  ],
)

-- The IDs of the entries, and that each of them is there once.
abbrev keys : Entries → List SessionId
keys [] = []
keys ((id, session) ∷ sessions) = id ∷ keys sessions

absent-keys :
    (id : SessionId) (sessions : Entries)
    → get same_id id sessions ≡ none
    → any (λ other. id == other) (keys sessions) ≡ false
unfolding get
absent-keys id [] h = refl
absent-keys id ((other, session) ∷ sessions) h = ground (arith, absent-keys id sessions)

Distinct-Unique : (sessions : Entries) → Distinct same_id sessions → Unique (keys sessions)
Distinct-Unique [] h = tt
Distinct-Unique ((id, session) ∷ sessions) (fresh, h) =
    (absent-keys id sessions fresh, Distinct-Unique sessions h)

length-keys : (sessions : Entries) → length (keys sessions) ≡ length sessions
length-keys [] = refl
length-keys ((id, session) ∷ sessions) = omega (arith, length-keys sessions)

keys_found : (sessions : Entries) → All (λ id. get same_id id sessions ≢ none) (keys sessions)
unfolding get
keys_found [] = tt
keys_found ((id, session) ∷ sessions) = (
  λ e. ground (arith, ==_iff id id),
  All-map_lem (λ other. get same_id other sessions ≢ none)
      (λ other. get same_id other ((id, session) ∷ sessions) ≢ none) (keys sessions)
      (λ other found e. elim (Bool-cases (other == id)) [
        | inl at ↦ ground (arith, at)
        | inr away ↦ found (ground (arith, away))
      ])
      (keys_found sessions),
)

kept_saved :
    (now : ℕ) (id : SessionId) (sessions : Entries) (saved : Saved)
    → Implements now sessions saved
    → get same_id id (retain (live now) sessions) ≡ filter (live now) (saved id)
kept_saved now id sessions saved (distinct, agree) =
    get-retain same_id ==_iff (live now) id sessions distinct ∙ agree id

retain-Full :
    (now : ℕ) (sessions : Entries) (saved : Saved)
    → Implements now sessions saved
    → leb max_in_memory_sessions (length (retain (live now) sessions)) ≡ true
    → Full now saved
retain-Full now sessions saved h many =
    let kept = retain (live now) sessions in
    (
      keys kept,
      Distinct-Unique kept (retain-Distinct same_id (live now) sessions h.0),
      rw (length-keys kept) (leb→le max_in_memory_sessions (length kept) many),
      All-map_lem (λ id. get same_id id kept ≢ none) (λ id. filter (live now) (saved id) ≢ none)
          (keys kept) (λ id found e. found (kept_saved now id sessions saved h ∙ e))
          (keys_found kept),
    )

-- What one call does, as the contract sees it.
abbrev Step : Call → InMemorySessionStore → Saved → Answer × InMemorySessionStore → Type 0
Step call store saved result =
    (after : Saved) × Allowed store.poisoned saved call result.0 after
    × Implements (time call) result.1.sessions after
    × (result.1.poisoned ≡ store.poisoned)

save-Step :
    (now : ℕ) (session : Session) (store : InMemorySessionStore) (saved : Saved)
    → Implements now store.sessions saved
    → Step
        (save_call now session)
        store
        saved
        (answer (save now session store).0, (save now session store).1)
unfolding save contains_key
save-Step now session store saved h = elim (Bool-cases store.poisoned) [
  | inl broken ↦ simp broken (saved, unavailable, h, refl)
  | inr sound ↦
      let kept = retain-Implements now store.sessions saved h in
      elim (Bool-cases (is_expired now session)) [
        | inl dead ↦ simp (sound, dead) (saved, expired dead, kept, refl)
        | inr fresh ↦
            let there = kept_saved now session.id store.sessions saved h in
            let put = insert-Implements now session (retain (live now) store.sessions) saved kept in
            let stored = written session.id (some session) saved in
            elim (Option-cases (get same_id session.id (retain (live now) store.sessions))) [
              | inl absent ↦
                  let lacks : (contains_key same_id session.id (retain (live now) store.sessions)
                      ≡ false) =
                    rw (absent, contains_key) refl in
                  elim (Bool-cases
                    (leb max_in_memory_sessions (length (retain (live now) store.sessions)))) [
                      | inl many ↦
                          let all_live = retain-Full now store.sessions saved h many in
                          simp (sound, fresh, lacks, many)
                            (saved, full (sym there ∙ absent) all_live, kept, refl)
                      | inr few ↦ simp (sound, fresh, lacks, few) (stored, saves fresh, put, refl)
                    ]
              | inr (old, known) ↦
                  let has : (contains_key same_id session.id (retain (live now) store.sessions)
                      ≡ true) =
                    rw (known, contains_key) refl in
                  simp (sound, fresh, has) (stored, saves fresh, put, refl)
            ]
      ]
]

load-Step :
    (now : ℕ) (id : SessionId) (store : InMemorySessionStore) (saved : Saved)
    → Implements now store.sessions saved
    → Step (load_call now id) store saved (answer_load (load now id store).0, (load now id store).1)
unfolding load
load-Step now id store saved h = elim (Bool-cases store.poisoned) [
  | inl broken ↦ simp broken (saved, unavailable, h, refl)
  | inr sound ↦
      let kept = retain-Implements now store.sessions saved h in
      let there = kept_saved now id store.sessions saved h in
      simp sound (
        saved,
        subst (λ found. Allowed false saved (load_call now id) (loaded found) saved) (sym there)
            loads,
        kept,
        refl,
      )
]

delete-Step :
    (now : ℕ) (id : SessionId) (store : InMemorySessionStore) (saved : Saved)
    → Implements now store.sessions saved
    → Step (delete_call now id) store saved (answer (delete id store).0, (delete id store).1)
unfolding delete
delete-Step now id store saved h = elim (Bool-cases store.poisoned) [
  | inl broken ↦ simp broken (saved, unavailable, h, refl)
  | inr sound ↦
      let rest = remove-Implements now id store.sessions saved h in
      simp sound (written id none saved, deletes, rest, refl)
]

perform-Step :
    (now : ℕ) (call : Call) (store : InMemorySessionStore) (saved : Saved)
    → now ≤ time call
    → Implements now store.sessions saved
    → Step call store saved (perform call store)
unfolding perform
perform-Step now (save_call later session) store saved order h =
    save-Step later session store saved (later-Implements now later store.sessions saved order h)
perform-Step now (load_call later id) store saved order h =
    load-Step later id store saved (later-Implements now later store.sessions saved order h)
perform-Step now (delete_call later id) store saved order h =
    delete-Step later id store saved (later-Implements now later store.sessions saved order h)

-- Run on a store that holds the sessions of a map, calls at times that never go back are answered
-- as the contract of session stores allows on that map: a load finds the session last saved under
-- the ID and not deleted since, unless it has expired, and a save is refused for want of room only
-- with 1024 unexpired sessions there. Where the lock is poisoned, every call fails.
pub run-refines :
    (now : ℕ) (calls : List Call) (store : InMemorySessionStore) (saved : Saved)
    → Ordered now calls
    → Implements now store.sessions saved
    → Behaves store.poisoned saved calls (run calls store).0
unfolding run
run-refines now [] store saved order h = stop
run-refines now (call ∷ calls) store saved (first, order) h =
    let (after, allowed, holds, same) = perform-Step now call store saved first h in
    let rest = run-refines (time call) calls (perform call store).1 after order holds in
    next allowed
      (subst (λ broken. Behaves broken after calls (run calls (perform call store).1).0) same rest)
