-- ===== src/Cache/Completion/Calls.antt =====
-- When crates/rustee-ai-cache/src/completion.rs calls the executor.
use rustee_web_framework.Prelude.{
  ℕ, ◌≡◌, refl, ◌↔◌, ◌⊎◌, inl, inr, none, some, List, [], ◌∷◌, arith,
}
use rustee_web_framework.Prelude.Result.{Result, ok, err, Result-cases}
use rustee_web_framework.Text.{Text}
use rustee_web_framework.Cache.Contracts.{
  AiCacheKey, AiCacheConfig, AiCacheReadFailurePolicy, ChatRequest, ChatResponse, AiCacheEntry,
  AiCacheEligibilityError, AiResponseCache, entry_new,
}
use rustee_web_framework.Cache.Completion.{request_eligibility, complete_miss, complete}

eligible :
    (tools results : List Text)
    → (request_eligibility (record { content = []; tools = tools; tool_results = results }) ≡ ok tt)
      ↔ ((tools ≡ []) × (results ≡ []))
unfolding request_eligibility
eligible [] [] = ground arith
eligible [] (result ∷ results) = ground arith
eligible (tool ∷ tools) results = ground arith

pub request_eligibility_iff :
    (request : ChatRequest)
    → (request_eligibility request ≡ ok tt) ↔ ((request.tools ≡ []) × (request.tool_results ≡ []))
unfolding request_eligibility
request_eligibility_iff request = eligible request.tools request.tool_results

pub policy_cases :
    (policy : AiCacheReadFailurePolicy)
    → (policy ≡ AiCacheReadFailurePolicy.fail_closed) ⊎ (policy ≡ AiCacheReadFailurePolicy.bypass)
policy_cases AiCacheReadFailurePolicy.fail_closed = inl refl
policy_cases AiCacheReadFailurePolicy.bypass = inr refl

module _ {E : Type 0} (execute : ChatRequest → Result ChatResponse E) (cache : AiResponseCache)
    (config : AiCacheConfig) where
  complete_miss-calls :
      (now : ℕ) (request : ChatRequest) (key : AiCacheKey) (state : cache.State)
      → (complete_miss execute cache config now request key state).1 ≡ request ∷ []
  unfolding complete_miss
  complete_miss-calls now request key state = elim (Result-cases (execute request)) [
    | inr (e, failed) ↦ rw (complete_miss, failed) refl
    | inl (response, done) ↦ elim (Result-cases (entry_new response)) [
      | inl (entry, fit) ↦ rw (complete_miss, done, fit) refl
      | inr (AiCacheEligibilityError.request_declares_tools, e) ↦ rw (complete_miss, done, e) refl
      | inr (AiCacheEligibilityError.request_contains_tool_results, e) ↦
          rw (complete_miss, done, e) refl
      | inr (AiCacheEligibilityError.response_contains_tool_calls, e) ↦
          rw (complete_miss, done, e) refl
    ]
  ]

  -- The executor is given the request once, with two exceptions in which it is given nothing: an
  -- eligible request for which the cache has an entry, and an eligible request for which the cache
  -- cannot be read under the policy that fails closed.
  complete-calls_iff :
      (now later : ℕ) (request : ChatRequest) (key : AiCacheKey) (state : cache.State)
      → ((complete execute cache config now later request key state).1 ≡ []) ↔ (
          (request.tools ≡ [])
          × (request.tool_results ≡ [])
          × (((entry : AiCacheEntry) × ((cache.get_entry now key state).0 ≡ ok (some entry)))
              ⊎ (((e : cache.Error) × ((cache.get_entry now key state).0 ≡ err e))
                  × (config.read_failure_policy ≡ AiCacheReadFailurePolicy.fail_closed))))
  unfolding complete
  complete-calls_iff now later request key state = (
    λ h. elim (Result-cases (request_eligibility request)) [
      | inr (e, unfit) ↦ absurd (ground (arith, unfit, h))
      | inl (tt, fit) ↦
          let (tools, results) = (request_eligibility_iff request).0 fit in
          elim (Result-cases (cache.get_entry now key state).0) [
            | inl (none, missing) ↦
                let called =
                  complete_miss-calls later request key (cache.get_entry now key state).1 in
                absurd (ground (arith, fit, missing, called, h))
            | inl (some entry, found) ↦ (tools, results, inl (entry, found))
            | inr (e, failed) ↦ elim (policy_cases config.read_failure_policy) [
              | inl closed ↦ (tools, results, inr ((e, failed), closed))
              | inr passes ↦ absurd (ground (arith, fit, failed, passes, h))
            ]
          ]
    ],
    λ (tools, results, answered).
        let fit = (request_eligibility_iff request).1 (tools, results) in
        elim answered [
          | inl (entry, found) ↦ rw (complete, fit, found) refl
          | inr ((e, failed), closed) ↦ rw (complete, fit, failed, closed) refl
        ],
  )
