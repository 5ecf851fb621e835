-- ===== src/TrustedProxy/Policy.antt =====
-- crates/rustee-middleware/src/trusted_proxy/policy.rs: the networks that are trusted. An address is
-- its family and its number.
pub mod Networks
use rustee_web_framework.Prelude.{
  ℕ, suc, ◌+◌, ◌-◌, ◌*◌, ◌/◌, ◌^◌, Bool, true, false, ◌&&◌, ◌||◌, List, [], ◌∷◌, ◌++◌, ltb, ◌==◌,
  if◌then◌else◌, any, length, is_empty,
}
use rustee_web_framework.Prelude.Result.{Result, ok, err, ◌>>=◌}

abbrev pub max_forwarded_chain_hops : ℕ
max_forwarded_chain_hops = 16

abbrev pub max_trusted_proxy_networks : ℕ
max_trusted_proxy_networks = 64

pub data IpAddr : Type 0 where
  v4 v6 : ℕ → IpAddr

pub record TrustedProxyNetwork : Type 0 where
  pub network : IpAddr
  pub prefix_length : ℕ

pub data TrustedProxyError : Type 0 where
  invalid_prefix_length empty_network_allowlist network_allowlist_limit : TrustedProxyError
  invalid_forwarded_chain_hops : TrustedProxyError

abbrev pub width : IpAddr → ℕ
width (v4 _) = 32
width (v6 _) = 128

-- `address >> shift << shift`, which clears the bits below the prefix.
unfoldable pub normalize_ip : IpAddr → ℕ → IpAddr
normalize_ip (v4 address) prefix = v4 (address / 2 ^ (32 - prefix) * 2 ^ (32 - prefix))
normalize_ip (v6 address) prefix = v6 (address / 2 ^ (128 - prefix) * 2 ^ (128 - prefix))

-- `TrustedProxyNetwork::new`.
unfoldable pub network_new : IpAddr → ℕ → Result TrustedProxyNetwork TrustedProxyError
network_new network prefix_length =
    if prefix_length == 0 || ltb (width network) prefix_length
    then err TrustedProxyError.invalid_prefix_length
    else ok (record { network = normalize_ip network prefix_length; prefix_length = prefix_length })

abbrev pub contains_address : IpAddr → ℕ → IpAddr → Bool
contains_address (v4 network) prefix (v4 address) =
    network / 2 ^ (32 - prefix) == address / 2 ^ (32 - prefix)
contains_address (v6 network) prefix (v6 address) =
    network / 2 ^ (128 - prefix) == address / 2 ^ (128 - prefix)
contains_address (v4 _) prefix (v6 _) = false
contains_address (v6 _) prefix (v4 _) = false

unfoldable pub contains : TrustedProxyNetwork → IpAddr → Bool
contains network address = contains_address network.network network.prefix_length address

-- The derived equality of networks.
abbrev pub same_address : IpAddr → IpAddr → Bool
same_address (v4 a) (v4 b) = a == b
same_address (v6 a) (v6 b) = a == b
same_address (v4 a) (v6 b) = false
same_address (v6 a) (v4 b) = false

abbrev pub same_network : TrustedProxyNetwork → TrustedProxyNetwork → Bool
same_network a b = same_address a.network b.network && a.prefix_length == b.prefix_length

pub record TrustedProxyPolicy : Type 0 where
  pub networks : List TrustedProxyNetwork
  pub forwarded_chain_hops : ℕ

-- The loop of `TrustedProxyPolicy::new`, with what it has collected.
unfoldable pub collect_networks :
    List TrustedProxyNetwork
    → List TrustedProxyNetwork
    → Result (List TrustedProxyNetwork) TrustedProxyError
collect_networks collected [] = ok collected
collect_networks collected (network ∷ networks) =
    let skipped = collect_networks collected networks in
    let pushed = collect_networks (collected ++ network ∷ []) networks in
    if any (λ other. same_network other network) collected
    then skipped
    else if length collected == max_trusted_proxy_networks
    then err TrustedProxyError.network_allowlist_limit
    else pushed

unfoldable pub policy_new : List TrustedProxyNetwork → Result TrustedProxyPolicy TrustedProxyError
unfolding collect_networks
policy_new networks = collect_networks [] networks >>= λ collected.
    if is_empty collected
    then err TrustedProxyError.empty_network_allowlist
    else ok (record { networks = collected; forwarded_chain_hops = 0 })

unfoldable pub with_forwarded_chain_hops :
    TrustedProxyPolicy → ℕ → Result TrustedProxyPolicy TrustedProxyError
with_forwarded_chain_hops policy hops =
    if hops == 0 || ltb max_forwarded_chain_hops hops
    then err TrustedProxyError.invalid_forwarded_chain_hops
    else ok (record policy { forwarded_chain_hops = hops })

unfoldable pub trusts : TrustedProxyPolicy → IpAddr → Bool
unfolding contains
trusts policy address = any (λ network. contains network address) policy.networks
