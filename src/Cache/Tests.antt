-- ===== src/Cache/Tests.antt =====
-- The cache under concrete calls.
use rustee_web_framework.AssocMap.{remove, get, insert, retain, contains_key}
use rustee_web_framework.Prelude.{ℕ, ◌≡◌, refl, false, List, [], ◌∷◌}
use rustee_web_framework.Prelude.Result.{Result, ok, err}
use rustee_web_framework.Text.{byte_len, codes}
use rustee_web_framework.Duration.{from_secs}
use rustee_web_framework.Cache.Contracts.{
  entry_new, AiCacheKey, AiCacheConfig, AiCacheConfigError, AiCacheEntry, AiCacheReadFailurePolicy,
  ChatRequest, ChatResponse, key_new, config_new, default_cache_ttl,
}
use rustee_web_framework.Cache.Memory.{
  InMemoryAiResponseCache, InMemoryAiResponseCacheError, cache_new, get_entry, put, in_memory,
}
use rustee_web_framework.Cache.Memory.Expiry.{Call, get_call, put_call, invalidate_call}
use rustee_web_framework.Cache.Completion.{
  complete_miss, request_eligibility, AiCacheStatus, complete,
}
use rustee_web_framework.Cache.Completion.Reuse.{complete-complete}

abbrev key : AiCacheKey
key = record { scope = codes "shop.v1"; fingerprint = codes "0f" }

short_fingerprint :
    key_new (codes "shop.v1") (codes "0f") ≡ err AiCacheConfigError.invalid_fingerprint
unfolding key_new byte_len
short_fingerprint = refl

abbrev answer : ChatResponse
answer = record { content = codes "yes"; tool_calls = [] }

abbrev entry : AiCacheEntry
entry = record { response = answer }

abbrev config : AiCacheConfig
config = record { ttl = from_secs 300; read_failure_policy = AiCacheReadFailurePolicy.bypass }

configured : config_new default_cache_ttl ≡ ok config
unfolding config_new
configured = refl

abbrev last_instant : ℕ
last_instant = from_secs 1000000

abbrev empty : InMemoryAiResponseCache
empty = record { entries = []; capacity = 1; poisoned = false }

made : cache_new 1 ≡ ok empty
unfolding cache_new
made = refl

stores : (put last_instant 50 key entry (from_secs 300) empty).0 ≡ ok tt
unfolding put contains_key retain
stores = refl

full :
    (put last_instant 60
      (record { scope = codes "b"; fingerprint = codes "0f" })
      entry
      (from_secs 300)
      (put last_instant 50 key entry (from_secs 300) empty).1).0
    ≡ err InMemoryAiResponseCacheError.capacity_exhausted
unfolding put contains_key retain insert
full = refl

abbrev calls : List Call
calls = put_call 50 key entry (from_secs 300) ∷ get_call 60 key ∷ invalidate_call key ∷ []

abbrev question : ChatRequest
question = record { content = codes "sure?"; tools = []; tool_results = [] }

abbrev execute : ChatRequest → Result ChatResponse (Unit {0})
execute request = ok answer

completed :
    (complete execute (in_memory last_instant) config 40 50 question key empty).0
    ≡ ok (record { response = answer; cache_status = AiCacheStatus.miss_stored })
unfolding complete request_eligibility get_entry get complete_miss entry_new put contains_key retain
    remove
completed = refl

complete-complete_example :
    complete execute
      (in_memory last_instant)
      config
      60
      61
      question
      key
      (complete execute (in_memory last_instant) config 40 50 question key empty).2
    ≡ (
      ok (record { response = answer; cache_status = AiCacheStatus.hit }),
      [],
      (complete execute (in_memory last_instant) config 40 50 question key empty).2,
    )
complete-complete_example =
    complete-complete (Unit {0}) execute config last_instant 40 50 60 61 question question key empty
      answer completed (refl, refl) refl
