-- ===== src/Session/Memory.antt =====
-- crates/rustee-auth-session/src/model/in_memory.rs, `InMemorySessionStore`, and the contract of
-- model/manager.rs, `SessionStore`, that it implements. Each operation holds the lock from its
-- start to its end, so it is one step on the state; `poisoned` says that locking fails, and `now`
-- is the time the clock shows within the step.
pub mod Steps
pub mod Refines
use rustee_web_framework.Prelude.{
  ℕ, Bool, not, ◌&&◌, Option, List, leb, ◌==◌, if◌then◌else◌, length,
}
use rustee_web_framework.Prelude.Result.{Result, ok, err}
use rustee_web_framework.AssocMap.{get, insert, remove, retain, contains_key}
use rustee_web_framework.Session.Record.{SessionId, Session, is_expired}

-- The trait `SessionStore`, over the state of the store.
pub record SessionStore : Type 1 where
  pub State : Type 0
  pub Error : Type 0
  pub save : ℕ → Session → State → Result (Unit {0}) Error × State
  pub load : ℕ → SessionId → State → Result (Option Session) Error × State
  pub delete : SessionId → State → Result (Unit {0}) Error × State

abbrev pub max_in_memory_sessions : ℕ
max_in_memory_sessions = 1024

pub data InMemorySessionStoreError : Type 0 where
  state_unavailable expired_session capacity_exhausted : InMemorySessionStoreError

pub record InMemorySessionStore : Type 0 where
  pub sessions : List (SessionId × Session)
  pub poisoned : Bool

abbrev pub same_id : SessionId → SessionId → Bool
same_id a b = a == b

-- The retained sessions, which `save` and `load` begin with.
abbrev pub live : ℕ → Session → Bool
live now session = not (is_expired now session)

unfoldable pub save :
    ℕ
    → Session
    → InMemorySessionStore
    → Result (Unit {0}) InMemorySessionStoreError × InMemorySessionStore
save now session store =
    let kept = retain (live now) store.sessions in
    if store.poisoned
    then (err InMemorySessionStoreError.state_unavailable, store)
    else if is_expired now session
    then (err InMemorySessionStoreError.expired_session, record store { sessions = kept })
    else if not (contains_key same_id session.id kept) && leb max_in_memory_sessions (length kept)
    then (err InMemorySessionStoreError.capacity_exhausted, record store { sessions = kept })
    else (ok tt, record store { sessions = insert same_id session.id session kept })

unfoldable pub load :
    ℕ
    → SessionId
    → InMemorySessionStore
    → Result (Option Session) InMemorySessionStoreError × InMemorySessionStore
load now id store =
    let kept = retain (live now) store.sessions in
    if store.poisoned
    then (err InMemorySessionStoreError.state_unavailable, store)
    else (ok (get same_id id kept), record store { sessions = kept })

unfoldable pub delete :
    SessionId
    → InMemorySessionStore
    → Result (Unit {0}) InMemorySessionStoreError × InMemorySessionStore
delete id store =
    if store.poisoned
    then (err InMemorySessionStoreError.state_unavailable, store)
    else (ok tt, record store { sessions = remove same_id id store.sessions })

-- The implementation of the trait.
abbrev pub in_memory : SessionStore
in_memory = record {
  State = InMemorySessionStore;
  Error = InMemorySessionStoreError;
  save = save;
  load = load;
  delete = delete;
}
