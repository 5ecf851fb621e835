-- ===== src/Cache/Memory.antt =====
-- crates/rustee-ai-cache/src/in_memory.rs, `InMemoryAiResponseCache`. Each operation holds the lock
-- from its start to its end; `poisoned` says that locking fails, and `now` is the monotonic clock's
-- `Instant` within the step, in nanoseconds. `Instant::checked_add` fails above `last_instant`, which
-- depends on the platform.
pub mod Expiry
use rustee_web_framework.Prelude.{
  ℕ, ◌+◌, Bool, true, false, not, ◌&&◌, Option, none, some, List, [], leb, ltb, ◌==◌, if◌then◌else◌,
  length,
}
use rustee_web_framework.Prelude.Result.{Result, ok, err}
use rustee_web_framework.Duration.{Duration}
use rustee_web_framework.AssocMap.{get, insert, remove, retain, contains_key}
use rustee_web_framework.Cache.Contracts.{
  AiCacheKey, AiCacheEntry, AiCacheConfigError, AiResponseCache, same_key, max_cache_ttl,
}

abbrev pub max_in_memory_entries : ℕ
max_in_memory_entries = 10000

pub record InMemoryEntry : Type 0 where
  pub entry : AiCacheEntry
  pub expires_at : ℕ

pub record InMemoryAiResponseCache : Type 0 where
  pub entries : List (AiCacheKey × InMemoryEntry)
  pub capacity : ℕ
  pub poisoned : Bool

pub data InMemoryAiResponseCacheError : Type 0 where
  zero_ttl ttl_exceeds_maximum ttl_out_of_range capacity_exhausted state_unavailable :
      InMemoryAiResponseCacheError

-- `InMemoryAiResponseCache::new`.
unfoldable pub cache_new : ℕ → Result InMemoryAiResponseCache AiCacheConfigError
cache_new capacity =
    if not (leb 1 capacity && leb capacity max_in_memory_entries)
    then err AiCacheConfigError.invalid_in_memory_capacity
    else ok (record { entries = []; capacity = capacity; poisoned = false })

abbrev pub is_live : ℕ → InMemoryEntry → Bool
is_live now value = ltb now value.expires_at

-- The entry that `get` answers with.
unfoldable pub fresh : ℕ → Option InMemoryEntry → Option AiCacheEntry
fresh now none = none
fresh now (some value) = if is_live now value then some value.entry else none

unfoldable pub get_entry :
    ℕ
    → AiCacheKey
    → InMemoryAiResponseCache
    → Result (Option AiCacheEntry) InMemoryAiResponseCacheError × InMemoryAiResponseCache
unfolding fresh
get_entry now key cache =
    if cache.poisoned
    then (err InMemoryAiResponseCacheError.state_unavailable, cache)
    else let result = fresh now (get same_key key cache.entries) in
      (
        ok result,
        elim result [
          | none ↦ record cache { entries = remove same_key key cache.entries }
          | some entry ↦ cache
        ],
      )

unfoldable pub put :
    ℕ
    → ℕ
    → AiCacheKey
    → AiCacheEntry
    → Duration
    → InMemoryAiResponseCache
    → Result (Unit {0}) InMemoryAiResponseCacheError × InMemoryAiResponseCache
put last_instant now key entry ttl cache =
    let kept = retain (is_live now) cache.entries in
    if ttl == 0
    then (err InMemoryAiResponseCacheError.zero_ttl, cache)
    else if ltb max_cache_ttl ttl
    then (err InMemoryAiResponseCacheError.ttl_exceeds_maximum, cache)
    else if cache.poisoned
    then (err InMemoryAiResponseCacheError.state_unavailable, cache)
    else if ltb last_instant (now + ttl)
    then (err InMemoryAiResponseCacheError.ttl_out_of_range, cache)
    else if not (contains_key same_key key kept) && length kept == cache.capacity
    then (err InMemoryAiResponseCacheError.capacity_exhausted, record cache { entries = kept })
    else (
      ok tt,
      record cache {
        entries = insert same_key key (record { entry = entry; expires_at = now + ttl }) kept;
      },
    )

unfoldable pub invalidate :
    AiCacheKey
    → InMemoryAiResponseCache
    → Result (Unit {0}) InMemoryAiResponseCacheError × InMemoryAiResponseCache
invalidate key cache =
    if cache.poisoned
    then (err InMemoryAiResponseCacheError.state_unavailable, cache)
    else (ok tt, record cache { entries = remove same_key key cache.entries })

-- The implementation of the trait.
abbrev pub in_memory : ℕ → AiResponseCache
in_memory last_instant = record {
  State = InMemoryAiResponseCache;
  Error = InMemoryAiResponseCacheError;
  get_entry = get_entry;
  put = put last_instant;
  invalidate = invalidate;
}
