-- ===== src/TrustedProxy/Policy/Networks.antt =====
-- crates/rustee-middleware/src/trusted_proxy/policy.rs: the addresses that networks and policies cover.
use native.Mathlib.Nat.{mul-div_cancel}
use rustee_web_framework.Prelude.{
  two_pow_pos, any-append, ℕ, ◌-◌, ◌/◌, ◌^◌, ◌≤◌, ◌<◌, ◌≡◌, refl, inl, inr, true, false, ◌||◌, List,
  [], ◌∷◌, ◌++◌, arith, any, length, length-append, is_empty, Bool-cases,
}
use rustee_web_framework.Prelude.Result.{ok, bind-eq-ok}
use rustee_web_framework.TrustedProxy.Policy.{
  IpAddr, TrustedProxyNetwork, TrustedProxyPolicy, network_new, normalize_ip, contains,
  contains_address, same_network, same_address, collect_networks, policy_new, trusts, width,
  max_trusted_proxy_networks,
}

-- A network that is accepted has a prefix of 1 to its family's width, and it contains an address
-- exactly when the configured address, before its low bits were cleared, has that address's prefix.
network_new-contains :
    (address peer : IpAddr) (prefix : ℕ) (network : TrustedProxyNetwork)
    → network_new address prefix ≡ ok network
    → (0 < prefix)
      × (prefix ≤ width address)
      × (contains network peer ≡ contains_address address prefix peer)
unfolding network_new normalize_ip contains
network_new-contains (IpAddr.v4 a) (IpAddr.v4 b) prefix network h =
    let cancel = mul-div_cancel (a / 2 ^ (32 - prefix)) (two_pow_pos (32 - prefix)) in ground arith
network_new-contains (IpAddr.v4 a) (IpAddr.v6 b) prefix network h = ground arith
network_new-contains (IpAddr.v6 a) (IpAddr.v4 b) prefix network h = ground arith
network_new-contains (IpAddr.v6 a) (IpAddr.v6 b) prefix network h =
    let cancel = mul-div_cancel (a / 2 ^ (128 - prefix)) (two_pow_pos (128 - prefix)) in
    ground arith

same_address-lem : (a b : IpAddr) → same_address a b ≡ true → a ≡ b
same_address-lem (IpAddr.v4 a) (IpAddr.v4 b) h = ground arith
same_address-lem (IpAddr.v6 a) (IpAddr.v6 b) h = ground arith
same_address-lem (IpAddr.v4 a) (IpAddr.v6 b) h = cc
same_address-lem (IpAddr.v6 a) (IpAddr.v4 b) h = cc

same_network_lem : (a b : TrustedProxyNetwork) → same_network a b ≡ true → a ≡ b
same_network_lem a b h = let address = same_address-lem a.network b.network in ground arith

-- Among the networks that are kept, one that was passed over is already there.
any-same :
    (network : TrustedProxyNetwork) (address : IpAddr) (kept : List TrustedProxyNetwork)
    → any (λ other. same_network other network) kept ≡ true
    → contains network address ≡ true
    → any (λ other. contains other address) kept ≡ true
any-same network address [] h c = cc
any-same network address (other ∷ kept) h c = elim (Bool-cases (same_network other network)) [
  | inl same ↦ rw (same_network_lem other network same, c) refl
  | inr differs ↦ let rest = any-same network address kept in ground arith
]

collect_networks-any :
    (address : IpAddr) (kept networks result : List TrustedProxyNetwork)
    → length kept ≤ max_trusted_proxy_networks
    → collect_networks kept networks ≡ ok result
    → (length result ≤ max_trusted_proxy_networks)
      × (any (λ other. contains other address) result ≡ (
          any (λ other. contains other address) kept
          || any (λ other. contains other address) networks))
unfolding collect_networks
collect_networks-any address kept [] result l h = ground arith
collect_networks-any address kept (network ∷ networks) result l h =
    let skipped = collect_networks-any address kept networks result l in
    let pushed = collect_networks-any address (kept ++ network ∷ []) networks result in
    let grown = length-append kept (network ∷ []) in
    let covered = any-append (λ other. contains other address) kept (network ∷ []) in
    let same = any-same network address kept in
    elim (Bool-cases (contains network address)) [
      | inl inside ↦ ground arith
      | inr outside ↦ ground arith
    ]

-- A policy that is accepted holds from one to 64 networks, asks for no chain, and trusts an address
-- exactly when some network of its configuration contains it, whichever were dropped as duplicates.
pub policy_new-trusts :
    (networks : List TrustedProxyNetwork) (policy : TrustedProxyPolicy) (address : IpAddr)
    → policy_new networks ≡ ok policy
    → (length policy.networks ≤ max_trusted_proxy_networks)
      × (is_empty policy.networks ≡ false)
      × (policy.forwarded_chain_hops ≡ 0)
      × (trusts policy address ≡ any (λ network. contains network address) networks)
unfolding policy_new trusts
policy_new-trusts networks policy address h =
    let (kept, collected, built) = bind-eq-ok (collect_networks [] networks) _ h in
    let (bound, same) = collect_networks-any address [] networks kept (omega arith) collected in
    elim (Bool-cases (is_empty kept)) [
      | inl empty ↦ absurd (ground arith)
      | inr some_kept ↦ ground arith
    ]
