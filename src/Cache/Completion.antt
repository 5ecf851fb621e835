-- ===== src/Cache/Completion.antt =====
-- crates/rustee-ai-cache/src/completion.rs, `AiCachedCompletion`, over any cache. The executor is the
-- application's: what it answers is a function of the request. Whether it was called is part of the
-- outcome.
pub mod Calls
pub mod Reuse
use rustee_web_framework.Prelude.{
  ℕ, Bool, not, Option, none, some, if◌then◌else◌, is_empty, List, [], ◌∷◌,
}
use rustee_web_framework.Prelude.Result.{Result, ok, err}
use rustee_web_framework.Cache.Contracts.{
  AiCacheKey, AiCacheConfig, AiCacheReadFailurePolicy, ChatRequest, ChatResponse, AiCacheEntry,
  AiCacheEligibilityError, AiResponseCache, entry_new,
}

pub data AiCacheStatus : Type 0 where
  hit miss_stored miss_store_failed bypassed_ineligible_request bypassed_read_failure
        miss_ineligible_response :
      AiCacheStatus

pub record AiCachedResponse : Type 0 where
  pub response : ChatResponse
  pub cache_status : AiCacheStatus

pub data AiCachedCompletionError (E C : Type 0) : Type 0 where
  executor : E → AiCachedCompletionError E C
  cache_read : C → AiCachedCompletionError E C
  unsafe_cache_entry : AiCacheEligibilityError → AiCachedCompletionError E C

unfoldable pub request_eligibility : ChatRequest → Result (Unit {0}) AiCacheEligibilityError
request_eligibility request =
    if not (is_empty request.tools)
    then err AiCacheEligibilityError.request_declares_tools
    else if not (is_empty request.tool_results)
    then err AiCacheEligibilityError.request_contains_tool_results
    else ok tt

module _ {E : Type 0} (execute : ChatRequest → Result ChatResponse E) (cache : AiResponseCache)
    (config : AiCacheConfig) where
  -- An answer, the requests that the executor was given, and the cache after it.
  abbrev pub Outcome : Type 0
  Outcome =
      Result AiCachedResponse (AiCachedCompletionError E cache.Error)
      × List ChatRequest
      × cache.State

  unfoldable pub complete_without_cache :
      ChatRequest → AiCacheStatus → Result AiCachedResponse (AiCachedCompletionError E cache.Error)
  complete_without_cache request cache_status = elim (execute request) [
    | err source ↦ err (executor source)
    | ok response ↦ ok (record { response = response; cache_status = cache_status })
  ]

  -- `complete` after a miss. The clock shows `now` when the response is stored.
  unfoldable pub complete_miss : ℕ → ChatRequest → AiCacheKey → cache.State → Outcome
  complete_miss now request key state = elim (execute request) [
    | err source ↦ (err (executor source), request ∷ [], state)
    | ok response ↦ elim (entry_new response) [
      | err AiCacheEligibilityError.response_contains_tool_calls ↦ (
        ok (record { response = response; cache_status = AiCacheStatus.miss_ineligible_response }),
        request ∷ [],
        state,
      )
      | err error ↦ (err (unsafe_cache_entry error), request ∷ [], state)
      | ok entry ↦
          let stored = cache.put now key entry config.ttl state in
          (
            ok (record {
              response = response;
              cache_status = elim stored.0 [
                | ok _ ↦ AiCacheStatus.miss_stored
                | err _ ↦ AiCacheStatus.miss_store_failed
              ];
            }),
            request ∷ [],
            stored.1,
          )
    ]
  ]

  -- `AiCachedCompletion::complete`. The clock shows `now` in the read, `later` in the write.
  unfoldable pub complete : ℕ → ℕ → ChatRequest → AiCacheKey → cache.State → Outcome
  complete now later request key state = elim (request_eligibility request) [
    | err _ ↦ (
      complete_without_cache request AiCacheStatus.bypassed_ineligible_request,
      request ∷ [],
      state,
    )
    | ok _ ↦
        let read = cache.get_entry now key state in
        elim read.0 [
          | ok (some entry) ↦ (
            ok (record { response = entry.response; cache_status = AiCacheStatus.hit }),
            [],
            read.1,
          )
          | ok none ↦ complete_miss later request key read.1
          | err source ↦ elim config.read_failure_policy [
            | AiCacheReadFailurePolicy.fail_closed ↦ (err (cache_read source), [], read.1)
            | AiCacheReadFailurePolicy.bypass ↦ (
              complete_without_cache request AiCacheStatus.bypassed_read_failure,
              request ∷ [],
              read.1,
            )
          ]
        ]
  ]
