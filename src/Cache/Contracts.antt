-- ===== src/Cache/Contracts.antt =====
-- crates/rustee-ai-cache/src/contracts.rs: keys, retention, and what may be cached. Of a request and
-- a response of crates/rustee-ai the cache reads the lists of tools only; the rest is `content`.
use rustee_web_framework.Prelude.{
  ℕ, Bool, not, ◌&&◌, ◌||◌, Option, List, leb, ltb, ◌==◌, if◌then◌else◌, all, is_empty,
}
use rustee_web_framework.Prelude.Result.{Result, ok, err}
use rustee_web_framework.Text.{Text, eqb, byte_len, is_ascii_alphanumeric, is_ascii_digit}
use rustee_web_framework.Duration.{Duration, from_secs}

abbrev pub max_scope_bytes : ℕ
max_scope_bytes = 128

abbrev pub sha256_hex_bytes : ℕ
sha256_hex_bytes = 64

abbrev pub max_cache_ttl : Duration
max_cache_ttl = from_secs 86400

abbrev pub default_cache_ttl : Duration
default_cache_ttl = from_secs 300

pub record AiCacheKey : Type 0 where
  pub scope : Text
  pub fingerprint : Text

pub data AiCacheConfigError : Type 0 where
  invalid_scope invalid_fingerprint zero_ttl ttl_exceeds_maximum invalid_in_memory_capacity :
      AiCacheConfigError

unfoldable pub valid_scope : Text → Bool
valid_scope scope =
    not (is_empty scope)
    && leb (byte_len scope) max_scope_bytes
    && all (λ byte. is_ascii_alphanumeric byte || byte == b'_' || byte == b'-' || byte == b'.')
        scope

unfoldable pub valid_sha256_hex : Text → Bool
valid_sha256_hex fingerprint =
    byte_len fingerprint == sha256_hex_bytes
    && all (λ byte. is_ascii_digit byte || leb b'a' byte && leb byte b'f') fingerprint

-- `AiCacheKey::new`.
unfoldable pub key_new : Text → Text → Result AiCacheKey AiCacheConfigError
unfolding valid_scope valid_sha256_hex
key_new scope fingerprint =
    if not (valid_scope scope)
    then err AiCacheConfigError.invalid_scope
    else if not (valid_sha256_hex fingerprint)
    then err AiCacheConfigError.invalid_fingerprint
    else ok (record { scope = scope; fingerprint = fingerprint })

-- `==` on keys.
abbrev pub same_key : AiCacheKey → AiCacheKey → Bool
same_key a b = eqb a.scope b.scope && eqb a.fingerprint b.fingerprint

pub data AiCacheReadFailurePolicy : Type 0 where
  fail_closed bypass : AiCacheReadFailurePolicy

pub record AiCacheConfig : Type 0 where
  pub ttl : Duration
  pub read_failure_policy : AiCacheReadFailurePolicy

-- `AiCacheConfig::new`.
unfoldable pub config_new : Duration → Result AiCacheConfig AiCacheConfigError
config_new ttl =
    if ttl == 0
    then err AiCacheConfigError.zero_ttl
    else if ltb max_cache_ttl ttl
    then err AiCacheConfigError.ttl_exceeds_maximum
    else ok (record { ttl = ttl; read_failure_policy = AiCacheReadFailurePolicy.bypass })

unfoldable pub with_read_failure_policy : AiCacheReadFailurePolicy → AiCacheConfig → AiCacheConfig
with_read_failure_policy policy config = record config { read_failure_policy = policy }

pub record ChatRequest : Type 0 where
  pub content : Text
  pub tools : List Text
  pub tool_results : List Text

pub record ChatResponse : Type 0 where
  pub content : Text
  pub tool_calls : List Text

pub record AiCacheEntry : Type 0 where
  pub response : ChatResponse

pub data AiCacheEligibilityError : Type 0 where
  request_declares_tools request_contains_tool_results response_contains_tool_calls :
      AiCacheEligibilityError

-- `AiCacheEntry::new`.
unfoldable pub entry_new : ChatResponse → Result AiCacheEntry AiCacheEligibilityError
entry_new response =
    if not (is_empty response.tool_calls)
    then err AiCacheEligibilityError.response_contains_tool_calls
    else ok (record { response = response })

-- The trait `AiResponseCache`, over the state of the cache.
pub record AiResponseCache : Type 1 where
  pub State : Type 0
  pub Error : Type 0
  pub get_entry : ℕ → AiCacheKey → State → Result (Option AiCacheEntry) Error × State
  pub put : ℕ → AiCacheKey → AiCacheEntry → Duration → State → Result (Unit {0}) Error × State
  pub invalidate : AiCacheKey → State → Result (Unit {0}) Error × State
