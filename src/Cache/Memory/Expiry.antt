-- ===== src/Cache/Memory/Expiry.antt =====
-- How long the cache of crates/rustee-ai-cache/src/in_memory.rs keeps an entry, and how many it keeps.
use rustee_web_framework.Prelude.{
  ℕ, ◌+◌, ◌≤◌, ◌≡◌, ◌≢◌, refl, sym, ap, subst, ◌∙◌, ◌↔◌, ◌⊎◌, inl, inr, true, false, not, ◌&&◌,
  none, some, List, [], ◌∷◌, arith, ltb, ◌==◌, if◌then◌else◌, length, Bool-cases, Option-cases,
}
use rustee_web_framework.Prelude.Result.{ok, err}
use rustee_web_framework.Text.{eqb_iff}
use rustee_web_framework.Duration.{Duration}
use rustee_web_framework.AssocMap.{
  get, insert, retain, contains_key, get-insert, length-insert_new, length-insert_old,
}
use rustee_web_framework.AssocMap.Distinct.{length-retain, length-remove}
use rustee_web_framework.Cache.Contracts.{AiCacheKey, AiCacheEntry, same_key, max_cache_ttl}
use rustee_web_framework.Cache.Memory.{
  InMemoryEntry, InMemoryAiResponseCache, InMemoryAiResponseCacheError, max_in_memory_entries,
  is_live, fresh, cache_new, get_entry, put, invalidate,
}

pub same_key_iff : (a b : AiCacheKey) → (same_key a b ≡ true) ↔ (a ≡ b)
same_key_iff a b = ground (arith, eqb_iff a.scope b.scope, eqb_iff a.fingerprint b.fingerprint)

-- What `put` does: nothing, or it drops what has expired, or it also stores the entry.
abbrev Puts : ℕ → ℕ → AiCacheKey → AiCacheEntry → Duration → InMemoryAiResponseCache → Type 0
Puts last_instant now key entry ttl cache =
    ((e : InMemoryAiResponseCacheError) × (put last_instant now key entry ttl cache
        ≡ (err e, cache)))
    ⊎ ((e : InMemoryAiResponseCacheError) × (put last_instant now key entry ttl cache
          ≡ (err e, record cache { entries = retain (is_live now) cache.entries })))
    ⊎ ((cache.poisoned ≡ false)
        × ((get same_key key (retain (is_live now) cache.entries) ≡ none)
            → length (retain (is_live now) cache.entries) ≢ cache.capacity)
        × (put last_instant now key entry ttl cache ≡ (
          ok tt,
          record cache {
            entries =
                insert same_key key (record { entry = entry; expires_at = now + ttl })
                  (retain (is_live now) cache.entries);
          },
        )))

has_room :
    (key : AiCacheKey) (entries : List (AiCacheKey × InMemoryEntry)) (capacity : ℕ)
    → get same_key key entries ≡ none
    → length entries ≡ capacity
    → (not (contains_key same_key key entries) && length entries == capacity) ≢ false
unfolding contains_key
has_room key entries capacity absent e h = ground (arith, absent, e, h)

put-Puts :
    (last_instant now : ℕ) (key : AiCacheKey) (entry : AiCacheEntry) (ttl : Duration)
    (cache : InMemoryAiResponseCache)
    → Puts last_instant now key entry ttl cache
unfolding put
put-Puts last_instant now key entry ttl cache = elim (Bool-cases (ttl == 0)) [
  | inl zero_ttl ↦ inl (InMemoryAiResponseCacheError.zero_ttl, simp zero_ttl refl)
  | inr positive ↦ elim (Bool-cases (ltb max_cache_ttl ttl)) [
    | inl long ↦ inl (InMemoryAiResponseCacheError.ttl_exceeds_maximum, simp (positive, long) refl)
    | inr short ↦ elim (Bool-cases cache.poisoned) [
      | inl broken ↦
          inl (InMemoryAiResponseCacheError.state_unavailable, simp (positive, short, broken) refl)
      | inr sound ↦ elim (Bool-cases (ltb last_instant (now + ttl))) [
        | inl beyond ↦ inl (
          InMemoryAiResponseCacheError.ttl_out_of_range,
          simp (positive, short, sound, beyond) refl,
        )
        | inr within ↦
            let kept = retain (is_live now) cache.entries in
            elim (Bool-cases
              (not (contains_key same_key key kept) && length kept == cache.capacity)) [
                | inl full ↦ inr (
                    inl (
                      InMemoryAiResponseCacheError.capacity_exhausted,
                      simp (positive, short, sound, within, full) refl,
                    ))
                | inr room ↦ inr (
                    inr (
                      sound,
                      λ absent e. has_room key kept cache.capacity absent e room,
                      simp (positive, short, sound, within, room) refl,
                    ))
              ]
      ]
    ]
  ]
]

pub put-inserts :
    (last_instant now : ℕ) (key : AiCacheKey) (entry : AiCacheEntry) (ttl : Duration)
    (cache : InMemoryAiResponseCache)
    → (put last_instant now key entry ttl cache).0 ≡ ok tt
    → (cache.poisoned ≡ false)
      × ((put last_instant now key entry ttl cache).1 ≡ record cache {
        entries =
            insert same_key key
              (record { entry = entry; expires_at = now + ttl })
              (retain (is_live now) cache.entries);
      })
put-inserts last_instant now key entry ttl cache h =
    elim (put-Puts last_instant now key entry ttl cache) [
      | inl (e, refused) ↦ absurd (ground (arith, ap (λ r. r.0) refused, h))
      | inr (inl (e, full)) ↦ absurd (ground (arith, ap (λ r. r.0) full, h))
      | inr (inr (sound, _, stored)) ↦ (sound, ap (λ r. r.1) stored)
    ]

-- The look-up that follows a successful `put` finds the entry until its lifetime is over, and nothing
-- from then on.
pub get_entry-put :
    (last_instant now later : ℕ) (key : AiCacheKey) (entry : AiCacheEntry) (ttl : Duration)
    (cache : InMemoryAiResponseCache)
    → (put last_instant now key entry ttl cache).0 ≡ ok tt
    → (get_entry later key (put last_instant now key entry ttl cache).1).0
      ≡ ok (if ltb later (now + ttl) then some entry else none)
unfolding get_entry fresh
get_entry-put last_instant now later key entry ttl cache h =
    let (sound, after) = put-inserts last_instant now key entry ttl cache h in
    let there =
      get-insert same_key same_key_iff key (record { entry = entry; expires_at = now + ttl })
        (retain (is_live now) cache.entries) in
    ap (λ c. (get_entry later key c).0) after ∙ simp (sound, there) refl

put-Bounded :
    (last_instant now : ℕ) (key : AiCacheKey) (entry : AiCacheEntry) (ttl : Duration)
    (cache : InMemoryAiResponseCache)
    → length cache.entries ≤ cache.capacity
    → (length (put last_instant now key entry ttl cache).1.entries ≤ cache.capacity)
      × ((put last_instant now key entry ttl cache).1.capacity ≡ cache.capacity)
put-Bounded last_instant now key entry ttl cache h =
    let kept = retain (is_live now) cache.entries in
    let fewer = length-retain same_key (is_live now) cache.entries in
    let stored : InMemoryEntry = record { entry = entry; expires_at = now + ttl } in
    elim (put-Puts last_instant now key entry ttl cache) [
      | inl (e, refused) ↦ rw refused (h, refl)
      | inr (inl (e, full)) ↦ rw full (omega (arith, h, fewer), refl)
      | inr (inr (_, room, done)) ↦ elim (Option-cases (get same_key key kept)) [
        | inl absent ↦
            let grown = length-insert_new same_key key stored kept absent in
            let free = room absent in rw done (omega (arith, h, fewer, grown, free), refl)
        | inr (old, known) ↦
            let same = length-insert_old same_key key stored old kept known in
            rw done (omega (arith, h, fewer, same), refl)
      ]
    ]

-- The calls on the cache, in the order in which they get the lock.
pub data Call : Type 0 where
  get_call : ℕ → AiCacheKey → Call
  put_call : ℕ → AiCacheKey → AiCacheEntry → Duration → Call
  invalidate_call : AiCacheKey → Call

unfoldable pub perform : ℕ → Call → InMemoryAiResponseCache → InMemoryAiResponseCache
perform last_instant (get_call now key) cache = (get_entry now key cache).1
perform last_instant (put_call now key entry ttl) cache =
    (put last_instant now key entry ttl cache).1
perform last_instant (invalidate_call key) cache = (invalidate key cache).1

unfoldable pub run : ℕ → List Call → InMemoryAiResponseCache → InMemoryAiResponseCache
run last_instant [] cache = cache
run last_instant (call ∷ calls) cache = run last_instant calls (perform last_instant call cache)

perform-Bounded :
    (last_instant : ℕ) (call : Call) (cache : InMemoryAiResponseCache)
    → length cache.entries ≤ cache.capacity
    → (length (perform last_instant call cache).entries ≤ cache.capacity)
      × ((perform last_instant call cache).capacity ≡ cache.capacity)
unfolding perform get_entry invalidate
perform-Bounded last_instant (get_call now key) cache h =
    let fewer = length-remove same_key key cache.entries in
    elim (Option-cases (fresh now (get same_key key cache.entries))) [
      | inl missing ↦ ground (arith, missing, h, fewer)
      | inr (entry, found) ↦ ground (arith, found, h)
    ]
perform-Bounded last_instant (put_call now key entry ttl) cache h =
    put-Bounded last_instant now key entry ttl cache h
perform-Bounded last_instant (invalidate_call key) cache h =
    let fewer = length-remove same_key key cache.entries in ground (arith, h, fewer)

run-Bounded :
    (last_instant : ℕ) (calls : List Call) (cache : InMemoryAiResponseCache)
    → length cache.entries ≤ cache.capacity
    → length (run last_instant calls cache).entries ≤ cache.capacity
unfolding run
run-Bounded last_instant [] cache h = h
run-Bounded last_instant (call ∷ calls) cache h =
    let (bound, same) = perform-Bounded last_instant call cache h in
    let next = perform last_instant call cache in
    let still = subst (λ n. length next.entries ≤ n) (sym same) bound in
    let rest = run-Bounded last_instant calls next still in
    subst (λ n. length (run last_instant calls next).entries ≤ n) same rest

-- However it is used, a cache never holds more entries than the capacity it was made with, which is
-- 10000 at most.
cache_new-run :
    (last_instant capacity : ℕ) (cache : InMemoryAiResponseCache) (calls : List Call)
    → cache_new capacity ≡ ok cache
    → (length (run last_instant calls cache).entries ≤ capacity)
      × (capacity ≤ max_in_memory_entries)
unfolding cache_new
cache_new-run last_instant capacity cache calls h =
    let empty : (length cache.entries ≤ cache.capacity) = ground arith in
    let same : (cache.capacity ≡ capacity) = ground arith in
    let bound = run-Bounded last_instant calls cache empty in
    (subst (λ n. length (run last_instant calls cache).entries ≤ n) same bound, ground arith)
