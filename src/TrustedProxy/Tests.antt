-- ===== src/TrustedProxy/Tests.antt =====
-- Trusted proxies at concrete networks and headers.
use rustee_web_framework.Text.Trim.{trim}
use rustee_web_framework.Text.Split.{split_once, split}
use rustee_web_framework.Prelude.{
  ◌≡◌, ◌≤◌, ◌+◌, ◌⊎◌, refl, ◌↔◌, true, false, none, some, List, [], ◌∷◌, ◌++◌, All, any, length,
  is_empty, if◌then◌else◌,
}
use rustee_web_framework.Prelude.Result.{ok, err}
use rustee_web_framework.Text.{lowercase, byte_len, codes, eqb}
use rustee_web_framework.TrustedProxy.Policy.{
  normalize_ip, IpAddr, TrustedProxyNetwork, TrustedProxyPolicy, network_new, contains, policy_new,
  trusts, max_trusted_proxy_networks,
}
use rustee_web_framework.TrustedProxy.Policy.Networks.{policy_new-trusts}
use rustee_web_framework.TrustedProxy.Forwarded.{
  parse_forwarded_element, collect, bounded_header_text, parse_forwarded, single_header,
  parse_forwarded_headers, first_after_hops, Parsers, ForwardedContext, ForwardedElement,
  select_client_ip, forwarded_from,
}
use rustee_web_framework.TrustedProxy.Forwarded.Client.{
  IsClient, select_client_ip_iff, forwarded_from-IsClient,
}
use rustee_web_framework.TrustedProxy.Layer.{
  TrustedProxyHeaderFamily, ProxyRequest, inner, connection_info_missing, invalid_forwarded_header,
  context_of, call, call-context,
}

-- 10.0.0.0/8, written with an address of it.
abbrev lan : TrustedProxyNetwork
lan = record { network = IpAddr.v4 0x0a000000; prefix_length = 8 }

lan_new : network_new (IpAddr.v4 0x0a010203) 8 ≡ ok lan
unfolding network_new normalize_ip
lan_new = refl

abbrev direct : TrustedProxyPolicy
direct = record { networks = lan ∷ []; forwarded_chain_hops = 0 }

direct_new : policy_new (lan ∷ lan ∷ []) ≡ ok direct
unfolding policy_new
direct_new = refl

policy_new-trusts_example :
    (length direct.networks ≤ max_trusted_proxy_networks)
    × (is_empty direct.networks ≡ false)
    × (direct.forwarded_chain_hops ≡ 0)
    × (trusts direct (IpAddr.v4 0x0a000001)
        ≡ any (λ network. contains network (IpAddr.v4 0x0a000001)) (lan ∷ lan ∷ []))
policy_new-trusts_example =
    policy_new-trusts (lan ∷ lan ∷ []) direct (IpAddr.v4 0x0a000001) direct_new

abbrev chained : TrustedProxyPolicy
chained = record { networks = lan ∷ []; forwarded_chain_hops = 2 }

abbrev forged : IpAddr
forged = IpAddr.v4 1

abbrev client : IpAddr
client = IpAddr.v4 0xcb007107

abbrev proxy : IpAddr
proxy = IpAddr.v4 0x0a000002

not_forged : select_client_ip chained (forged ∷ client ∷ proxy ∷ []) ≡ ok client
unfolding select_client_ip
not_forged = refl

select_client_ip_iff_example :
    (select_client_ip chained (forged ∷ client ∷ proxy ∷ []) ≡ ok client)
    ↔ IsClient (λ ip. ip) chained (forged ∷ client ∷ proxy ∷ []) client
select_client_ip_iff_example = select_client_ip_iff chained (forged ∷ client ∷ proxy ∷ []) client

-- Parsers that know one address and one authority.
abbrev parsers : Parsers
parsers = record {
  ip_from_str = λ text. if eqb text (codes "203.0.113.7") then some client else none;
  is_authority = λ text. eqb text (codes "example.org");
}

abbrev elements : List ForwardedElement
elements =
    record { client_ip = client; scheme = none; host = none }
    ∷ record { client_ip = proxy; scheme = some (codes "https"); host = none }
    ∷ []

abbrev context : ForwardedContext
context = record { client_ip = client; scheme = some (codes "https"); host = none }

accepted : forwarded_from parsers chained elements ≡ ok context
unfolding forwarded_from first_after_hops
accepted = refl

-- What the theorem says of these elements.
abbrev Explained : List ForwardedElement → ForwardedContext → Type 0
Explained chain found =
    (earlier : List ForwardedElement) × (edge : ForwardedElement) × (origin : ForwardedElement)
    × (chain ≡ earlier ++ edge ∷ [])
    × All (λ element. (element.scheme ≡ none) × (element.host ≡ none)) earlier
    × (length chain ≤ chained.forwarded_chain_hops + 1)
    × IsClient (λ element. element.client_ip) chained chain origin
    × (found.client_ip ≡ origin.client_ip)
    × (found.scheme ≡ edge.scheme)
    × (found.host ≡ edge.host)

forwarded_from-IsClient_example : Explained elements context
forwarded_from-IsClient_example = forwarded_from-IsClient parsers chained elements context accepted

abbrev request : ProxyRequest
request = record {
  headers = record {
    forwarded = some (codes "For=203.0.113.7; proto=https;host=example.org") ∷ [];
    x_forwarded_for = [];
    x_forwarded_proto = [];
    x_forwarded_host = [];
  };
  connection_info = some proxy;
  context = none;
}

abbrev read_context : ForwardedContext
read_context = record {
  client_ip = client;
  scheme = some (codes "https");
  host = some (codes "example.org");
}

handed_on :
    call parsers direct TrustedProxyHeaderFamily.forwarded request
    ≡ inner (record request { context = some read_context })
unfolding call trusts parse_forwarded_headers single_header parse_forwarded bounded_header_text
    byte_len collect split parse_forwarded_element split_once trim lowercase forwarded_from
    first_after_hops
handed_on = refl

call-context_example :
    ((call parsers direct TrustedProxyHeaderFamily.forwarded request ≡ inner request)
      ⊎ (call parsers direct TrustedProxyHeaderFamily.forwarded request ≡ connection_info_missing)
        × (request.connection_info ≡ none))
    ⊎ (peer : IpAddr) × (request.connection_info ≡ some peer)
      × (trusts direct peer ≡ true)
      × (((call parsers direct TrustedProxyHeaderFamily.forwarded request
              ≡ invalid_forwarded_header)
            × (context_of parsers direct TrustedProxyHeaderFamily.forwarded request.headers
                ≡ err tt))
          ⊎ (found : ForwardedContext) × (call parsers direct TrustedProxyHeaderFamily.forwarded
                request
              ≡ inner (record request { context = some found }))
            × (context_of parsers direct TrustedProxyHeaderFamily.forwarded request.headers
                ≡ ok (some found)))
call-context_example = call-context parsers direct TrustedProxyHeaderFamily.forwarded request
