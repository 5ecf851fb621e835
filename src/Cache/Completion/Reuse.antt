-- ===== src/Cache/Completion/Reuse.antt =====
-- When crates/rustee-ai-cache/src/completion.rs answers from the cache.
use rustee_web_framework.Prelude.{
  ℕ, ◌+◌, ◌≡◌, refl, ap, subst, ◌∙◌, inl, inr, true, none, some, [], arith, ltb, is_empty,
  if◌then◌else◌, Bool-cases, Option-cases,
}
use rustee_web_framework.Prelude.Result.{Result, ok, Result-cases}
use rustee_web_framework.AssocMap.{get}
use rustee_web_framework.Cache.Contracts.{
  same_key, AiCacheKey, AiCacheConfig, ChatRequest, ChatResponse, AiCacheEntry,
  AiCacheEligibilityError, AiResponseCache, entry_new,
}
use rustee_web_framework.Cache.Memory.{InMemoryAiResponseCache, fresh, get_entry, in_memory}
use rustee_web_framework.Cache.Memory.Expiry.{get_entry-put}
use rustee_web_framework.Cache.Completion.Calls.{request_eligibility_iff, policy_cases}
use rustee_web_framework.Cache.Completion.{
  AiCacheStatus, AiCachedResponse, request_eligibility, complete_miss, complete,
  complete_without_cache,
}

entry_new-ok :
    (response : ChatResponse) (entry : AiCacheEntry)
    → entry_new response ≡ ok entry
    → entry ≡ record { response = response }
unfolding entry_new
entry_new-ok response entry h = elim (Bool-cases (is_empty response.tool_calls)) [
  | inl plain ↦ ground (arith, plain, h)
  | inr calls ↦ absurd (ground (arith, calls, h))
]

get_entry-hit :
    (now : ℕ) (key : AiCacheKey) (cache : InMemoryAiResponseCache) (entry : AiCacheEntry)
    → (get_entry now key cache).0 ≡ ok (some entry)
    → (get_entry now key cache).1 ≡ cache
unfolding get_entry
get_entry-hit now key cache entry h = elim (Bool-cases cache.poisoned) [
  | inl broken ↦ absurd (ground (arith, broken, h))
  | inr sound ↦ elim (Option-cases (fresh now (get same_key key cache.entries))) [
    | inl missing ↦ absurd (ground (arith, sound, missing, h))
    | inr (found, there) ↦ simp (sound, there) refl
  ]
]

module _ {E : Type 0} (execute : ChatRequest → Result ChatResponse E) (cache : AiResponseCache)
    (config : AiCacheConfig) where
  complete_without_cache-status :
      (request : ChatRequest) (status : AiCacheStatus) (answer : AiCachedResponse)
      → complete_without_cache execute cache config request status ≡ ok answer
      → answer.cache_status ≡ status
  unfolding complete_without_cache
  complete_without_cache-status request status answer h = elim (Result-cases (execute request)) [
    | inr (e, failed) ↦ absurd (ground (arith, failed, h))
    | inl (response, done) ↦ ground (arith, done, h)
  ]

  -- The cache was written after the read, with the answer.
  abbrev Stores : ℕ → ℕ → ChatRequest → AiCacheKey → cache.State → ChatResponse → Type 0
  Stores now later request key state response =
      let read = (cache.get_entry now key state).1 in
      let entry : AiCacheEntry = record { response = response } in
      ((cache.put later key entry config.ttl read).0 ≡ ok tt)
      × ((complete execute cache config now later request key state).2
          ≡ (cache.put later key entry config.ttl read).1)

  miss_stored-put :
      (later : ℕ) (request : ChatRequest) (key : AiCacheKey) (state : cache.State)
      (response : ChatResponse)
      → (complete_miss execute cache config later request key state).0
        ≡ ok (record { response = response; cache_status = AiCacheStatus.miss_stored })
      → ((cache.put later key (record { response = response }) config.ttl state).0 ≡ ok tt)
        × ((complete_miss execute cache config later request key state).2
            ≡ (cache.put later key (record { response = response }) config.ttl state).1)
  unfolding complete_miss
  miss_stored-put later request key state response h = elim (Result-cases (execute request)) [
    | inr (e, failed) ↦ absurd (ground (arith, failed, h))
    | inl (given, done) ↦ elim (Result-cases (entry_new given)) [
      | inr (AiCacheEligibilityError.request_declares_tools, e) ↦
          absurd (ground (arith, done, e, h))
      | inr (AiCacheEligibilityError.request_contains_tool_results, e) ↦
          absurd (ground (arith, done, e, h))
      | inr (AiCacheEligibilityError.response_contains_tool_calls, e) ↦
          absurd (ground (arith, done, e, h))
      | inl (entry, fit) ↦ elim (Result-cases (cache.put later key entry config.ttl state).0) [
        | inr (e, refused) ↦ absurd (ground (arith, done, fit, refused, h))
        | inl (tt, stored) ↦
            let same : (given ≡ response) = ground (arith, done, fit, stored, h) in
            let whole : (entry ≡ record { response = response }) =
              entry_new-ok given entry fit ∙ ap (λ r. record { response = r }) same in
            let left : ((complete_miss execute cache config later request key state).2
                ≡ (cache.put later key entry config.ttl state).1) =
              rw (complete_miss, done, fit) refl in
            (
              subst (λ e. (cache.put later key e config.ttl state).0 ≡ ok tt) whole stored,
              left ∙ ap (λ e. (cache.put later key e config.ttl state).1) whole,
            )
      ]
    ]
  ]

  complete-Stores :
      (now later : ℕ) (request : ChatRequest) (key : AiCacheKey) (state : cache.State)
      (response : ChatResponse)
      → (complete execute cache config now later request key state).0
        ≡ ok (record { response = response; cache_status = AiCacheStatus.miss_stored })
      → Stores now later request key state response
  unfolding complete
  complete-Stores now later request key state response h =
      elim (Result-cases (request_eligibility request)) [
        | inr (e, unfit) ↦
            let status =
              complete_without_cache-status request AiCacheStatus.bypassed_ineligible_request
                (record { response = response; cache_status = AiCacheStatus.miss_stored })
                (ground (arith, unfit, h)) in
            absurd (ground (arith, status))
        | inl (tt, fit) ↦ elim (Result-cases (cache.get_entry now key state).0) [
          | inl (none, missing) ↦
              let (stored, left) =
                miss_stored-put later request key (cache.get_entry now key state).1 response
                  (ground (arith, fit, missing, h)) in
              (stored, rw (complete, fit, missing) left)
          | inl (some entry, found) ↦ absurd (ground (arith, fit, found, h))
          | inr (e, failed) ↦ elim (policy_cases config.read_failure_policy) [
            | inl closed ↦ absurd (ground (arith, fit, failed, closed, h))
            | inr passes ↦
                let status =
                  complete_without_cache-status request AiCacheStatus.bypassed_read_failure
                    (record { response = response; cache_status = AiCacheStatus.miss_stored })
                    (ground (arith, fit, failed, passes, h)) in
                absurd (ground (arith, status))
          ]
        ]
      ]

  complete-hit :
      (now later : ℕ) (request : ChatRequest) (key : AiCacheKey) (state : cache.State)
      (entry : AiCacheEntry)
      → request_eligibility request ≡ ok tt
      → (cache.get_entry now key state).0 ≡ ok (some entry)
      → complete execute cache config now later request key state ≡ (
        ok (record { response = entry.response; cache_status = AiCacheStatus.hit }),
        [],
        (cache.get_entry now key state).1,
      )
  unfolding complete
  complete-hit now later request key state entry fit found = rw (complete, fit, found) refl

-- A response that was stored is reused: with the cache in memory, the completion that follows one
-- with the status `MissStored`, of any eligible request under the same key and before the entry's
-- lifetime is over, answers with the same response and does not call the executor.
pub complete-complete :
    (E : Type 0) (execute : ChatRequest → Result ChatResponse E) (config : AiCacheConfig)
    (last_instant now later then_now then_later : ℕ) (request again : ChatRequest)
    (key : AiCacheKey) (cache : InMemoryAiResponseCache) (response : ChatResponse)
    → (complete execute (in_memory last_instant) config now later request key cache).0
      ≡ ok (record { response = response; cache_status = AiCacheStatus.miss_stored })
    → (again.tools ≡ []) × (again.tool_results ≡ [])
    → ltb then_now (later + config.ttl) ≡ true
    → complete execute
        (in_memory last_instant)
        config
        then_now
        then_later
        again
        key
        (complete execute (in_memory last_instant) config now later request key cache).2
      ≡ (
        ok (record { response = response; cache_status = AiCacheStatus.hit }),
        [],
        (complete execute (in_memory last_instant) config now later request key cache).2,
      )
complete-complete E execute config last_instant now later then_now then_later request again key
      cache response h fit alive =
    let after = (complete execute (in_memory last_instant) config now later request key cache).2 in
    let read = (get_entry now key cache).1 in
    let entry : AiCacheEntry = record { response = response } in
    let (stored, left) =
      complete-Stores execute (in_memory last_instant) config now later request key cache response
        h in
    let found : ((get_entry then_now key after).0 ≡ ok (some entry)) =
      ap (λ c. (get_entry then_now key c).0) left
      ∙ get_entry-put last_instant later then_now key entry config.ttl read stored
      ∙ ap (λ b. ok (if b then some entry else none)) alive in
    let same = get_entry-hit then_now key after entry found in
    let reads = (request_eligibility_iff again).1 fit in
    complete-hit execute (in_memory last_instant) config then_now then_later again key after entry
      reads found
    ∙ ap (λ c. (ok (record { response = response; cache_status = AiCacheStatus.hit }), [], c)) same
