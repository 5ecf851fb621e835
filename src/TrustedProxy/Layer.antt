-- ===== src/TrustedProxy/Layer.antt =====
-- crates/rustee-middleware/src/trusted_proxy/layer.rs: the service in front of an application. A
-- request is what the service reads and writes of it.
use rustee_web_framework.Prelude.{
  ◌≡◌, refl, ◌⊎◌, inl, inr, true, Option, none, some, arith, if◌then◌else◌, Bool-cases,
  Option-cases,
}
use rustee_web_framework.Prelude.Result.{Result, ok, err, Result-cases}
use rustee_web_framework.TrustedProxy.Policy.{IpAddr, TrustedProxyPolicy, trusts}
use rustee_web_framework.TrustedProxy.Forwarded.{
  Parsers, ForwardedContext, Headers, Invalid, parse_forwarded_headers, parse_x_forwarded_headers,
}

pub data TrustedProxyHeaderFamily : Type 0 where
  forwarded x_forwarded : TrustedProxyHeaderFamily

-- The headers, and the extensions `ConnectionInfo` (its address) and `ForwardedContext`.
pub record ProxyRequest : Type 0 where
  pub headers : Headers
  pub connection_info : Option IpAddr
  pub context : Option ForwardedContext

-- A response of the layer itself, or the inner service's response.
pub data ProxyOutcome : Type 0 where
  connection_info_missing invalid_forwarded_header : ProxyOutcome
  inner : ProxyRequest → ProxyOutcome

module _ (parsers : Parsers) where
  unfoldable pub context_of :
      TrustedProxyPolicy
      → TrustedProxyHeaderFamily
      → Headers
      → Result (Option ForwardedContext) Invalid
  context_of policy TrustedProxyHeaderFamily.forwarded headers =
      parse_forwarded_headers parsers policy headers
  context_of policy TrustedProxyHeaderFamily.x_forwarded headers =
      parse_x_forwarded_headers parsers policy headers

  abbrev insert_context : Result (Option ForwardedContext) Invalid → ProxyRequest → ProxyOutcome
  insert_context (ok (some context)) request = inner (record request { context = some context })
  insert_context (ok none) request = inner request
  insert_context (err _) request = invalid_forwarded_header

  -- `TrustedProxy::call`.
  unfoldable pub call : TrustedProxyPolicy → TrustedProxyHeaderFamily → ProxyRequest → ProxyOutcome
  unfolding context_of
  call policy family request = elim request.connection_info [
    | none ↦ connection_info_missing
    | some peer ↦
        if trusts policy peer
        then insert_context (context_of policy family request.headers) request
        else inner request
  ]

-- Whatever a request's headers say, the inner service gets that request with its context as it was,
-- or with one that was read from the headers under the policy because the peer is trusted. It is
-- not reached at all only when the peer is not known, or is trusted and sent invalid headers.
pub call-context :
    (parsers : Parsers) (policy : TrustedProxyPolicy) (family : TrustedProxyHeaderFamily)
    (request : ProxyRequest)
    → ((call parsers policy family request ≡ inner request)
        ⊎ (call parsers policy family request ≡ connection_info_missing)
          × (request.connection_info ≡ none))
      ⊎ (peer : IpAddr) × (request.connection_info ≡ some peer)
        × (trusts policy peer ≡ true)
        × (((call parsers policy family request ≡ invalid_forwarded_header)
              × (context_of parsers policy family request.headers ≡ err tt))
            ⊎ (context : ForwardedContext) × (call parsers policy family request
                ≡ inner (record request { context = some context }))
              × (context_of parsers policy family request.headers ≡ ok (some context)))
unfolding call
call-context parsers policy family request = elim (Option-cases request.connection_info) [
  | inl missing ↦ inl (inr (ground arith, missing))
  | inr (peer, known) ↦ elim (Bool-cases (trusts policy peer)) [
    | inl trusted ↦ elim (Result-cases (context_of parsers policy family request.headers)) [
      | inl (some context, read) ↦
          inr (peer, known, trusted, inr (context, rw (known, trusted, read) refl, read))
      | inl (none, read) ↦ inl (inl (rw (known, trusted, read) refl))
      | inr (tt, refused) ↦
          inr (peer, known, trusted, inl (rw (known, trusted, refused) refl, refused))
    ]
    | inr untrusted ↦ inl (inl (rw (known, untrusted) refl))
  ]
]
