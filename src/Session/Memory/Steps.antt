-- ===== src/Session/Memory/Steps.antt =====
-- The calls on the session store of crates/rustee-auth-session/src/model/in_memory.rs in the order
-- in which they get the lock, and what the contract of model/manager.rs promises of them: a map
-- from IDs to the sessions last saved under them, which never forgets a session on its own.
use rustee_web_framework.Prelude.{
  ℕ, ◌≤◌, ◌≡◌, ◌≢◌, Bool, true, false, Option, none, some, List, [], ◌∷◌, ◌==◌, if◌then◌else◌,
  length, All, any,
}
use rustee_web_framework.Prelude.Result.{Result, ok, err}
use rustee_web_framework.AssocMap.{get, filter}
use rustee_web_framework.AssocMap.Distinct.{Distinct}
use rustee_web_framework.Session.Record.{SessionId, Session, is_expired}
use rustee_web_framework.Session.Memory.{
  max_in_memory_sessions, InMemorySessionStoreError, InMemorySessionStore, same_id, live, save,
  load, delete,
}

-- A call, with the time at which it holds the lock.
pub data Call : Type 0 where
  save_call : ℕ → Session → Call
  load_call : ℕ → SessionId → Call
  delete_call : ℕ → SessionId → Call

abbrev pub time : Call → ℕ
time (save_call now session) = now
time (load_call now id) = now
time (delete_call now id) = now

pub data Answer : Type 0 where
  done : Answer
  loaded : Option Session → Answer
  failed : InMemorySessionStoreError → Answer

abbrev pub answer : Result (Unit {0}) InMemorySessionStoreError → Answer
answer (ok _) = done
answer (err e) = failed e

abbrev pub answer_load : Result (Option Session) InMemorySessionStoreError → Answer
answer_load (ok found) = loaded found
answer_load (err e) = failed e

unfoldable pub perform : Call → InMemorySessionStore → Answer × InMemorySessionStore
perform (save_call now session) store = let r = save now session store in (answer r.0, r.1)
perform (load_call now id) store = let r = load now id store in (answer_load r.0, r.1)
perform (delete_call now id) store = let r = delete id store in (answer r.0, r.1)

unfoldable pub run : List Call → InMemorySessionStore → List Answer × InMemorySessionStore
run [] store = ([], store)
run (call ∷ calls) store =
    let step = perform call store in let rest = run calls step.1 in (step.0 ∷ rest.0, rest.1)

abbrev pub Ordered : ℕ → List Call → Type 0
Ordered now [] = Unit
Ordered now (call ∷ calls) = (now ≤ time call) × Ordered (time call) calls

-- The contract's map.
abbrev pub Saved : Type 0
Saved = SessionId → Option Session

abbrev pub written : SessionId → Option Session → Saved → Saved
written id value saved other = if other == id then value else saved other

abbrev pub Unique : List SessionId → Type 0
Unique [] = Unit
Unique (id ∷ ids) = (any (λ other. id == other) ids ≡ false) × Unique ids

-- The map holds as many unexpired sessions as the store has room for.
abbrev pub Full : ℕ → Saved → Type 0
Full now saved =
    (ids : List SessionId) × Unique ids
    × (max_in_memory_sessions ≤ length ids)
    × All (λ id. filter (live now) (saved id) ≢ none) ids

-- Which answers a call may have, and what it does to the map; `broken` is a poisoned lock.
pub data Allowed : Bool → Saved → Call → Answer → Saved → Type 0 where
  saves :
      {saved : Saved} {now : ℕ} {session : Session}
      → is_expired now session ≡ false
      → Allowed false saved (save_call now session) done (written session.id (some session) saved)
  expired :
      {saved : Saved} {now : ℕ} {session : Session}
      → is_expired now session ≡ true
      → Allowed false saved
          (save_call now session)
          (failed InMemorySessionStoreError.expired_session)
          saved
  full :
      {saved : Saved} {now : ℕ} {session : Session}
      → filter (live now) (saved session.id) ≡ none
      → Full now saved
      → Allowed false saved
          (save_call now session)
          (failed InMemorySessionStoreError.capacity_exhausted)
          saved
  loads :
      {saved : Saved} {now : ℕ} {id : SessionId}
      → Allowed false saved (load_call now id) (loaded (filter (live now) (saved id))) saved
  deletes :
      {saved : Saved} {now : ℕ} {id : SessionId}
      → Allowed false saved (delete_call now id) done (written id none saved)
  unavailable :
      {saved : Saved} {call : Call}
      → Allowed true saved call (failed InMemorySessionStoreError.state_unavailable) saved

-- The answers of a run, each allowed by the map that the ones before it left.
pub data Behaves : Bool → Saved → List Call → List Answer → Type 0 where
  stop : {broken : Bool} {saved : Saved} → Behaves broken saved [] []
  next :
      {broken : Bool} {saved after : Saved} {call : Call} {given : Answer} {calls : List Call}
      {answers : List Answer}
      → Allowed broken saved call given after
      → Behaves broken after calls answers
      → Behaves broken saved (call ∷ calls) (given ∷ answers)

-- The entries of a store are the map's sessions that are unexpired, with expired ones perhaps.
abbrev pub Implements : ℕ → List (SessionId × Session) → Saved → Type 0
Implements now sessions saved =
    Distinct same_id sessions
    × ((id : SessionId)
        → filter (live now) (get same_id id sessions) ≡ filter (live now) (saved id))
