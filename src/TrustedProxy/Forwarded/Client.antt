-- ===== src/TrustedProxy/Forwarded/Client.antt =====
-- crates/rustee-middleware/src/trusted_proxy/forwarded.rs: which address a chain of clients gives.
use mathlib.Core.List.{reverse-append, reverse-reverse, reverse-cons}
use rustee_web_framework.Prelude.{
  ℕ, suc, ◌+◌, ◌-◌, ◌≤◌, ◌≡◌, refl, sym, ap, ◌∙◌, subst, ◌↔◌, ◌⊎◌, inl, inr, true, false, ◌&&◌,
  ◌||◌, none, some, List, [], ◌∷◌, ◌++◌, reverse, arith, ltb, any, length, length-append, take, All,
  All-append, Bool-cases, Option-cases, append_assoc,
}
use rustee_web_framework.Prelude.Result.{ok}
use rustee_web_framework.TrustedProxy.Policy.{IpAddr, TrustedProxyPolicy, trusts}
use rustee_web_framework.TrustedProxy.Forwarded.{
  ForwardedContext, ForwardedElement, Parsers, first_after_hops, select_client_ip, forwarded_from,
  last, is_some,
}

-- What `first_after_hops` finds: it passes over trusted entries, no more of them than the bound
-- allows, and stops at an entry that is not trusted or that the bound does not let it pass.
abbrev Stops : {A : Type 0} → (A → IpAddr) → TrustedProxyPolicy → ℕ → List A → A → Type 0
Stops {A} ip policy used xs x =
    (passed : List A) × (others : List A) × (xs ≡ passed ++ x ∷ others)
    × All (λ y. trusts policy (ip y) ≡ true) passed
    × (used + length passed ≤ policy.forwarded_chain_hops)
    × ((trusts policy (ip x) ≡ false) ⊎ (used + length passed ≡ policy.forwarded_chain_hops))

first_after_hops-Stops :
    {A : Type 0} (ip : A → IpAddr) (policy : TrustedProxyPolicy) (used : ℕ) (xs : List A) (x : A)
    → used ≤ policy.forwarded_chain_hops
    → first_after_hops ip policy used xs ≡ some x
    → Stops ip policy used xs x
unfolding first_after_hops
first_after_hops-Stops ip policy used [] x b h = cc
first_after_hops-Stops ip policy used (y ∷ ys) x b h =
    elim (Bool-cases (ltb used policy.forwarded_chain_hops && trusts policy (ip y))) [
      | inl pass ↦
          let (passed, others, e, t, l, stop) =
            first_after_hops-Stops ip policy (suc used) ys x (ground arith) (ground arith) in
          (y ∷ passed, others, ap (λ zs. y ∷ zs) e, (ground arith, t), omega arith, ground arith)
      | inr halt ↦ ([], ys, ground arith, tt, omega arith, ground arith)
    ]

first_after_hops-passed :
    {A : Type 0} (ip : A → IpAddr) (policy : TrustedProxyPolicy) (used : ℕ) (passed others : List A)
    (x : A)
    → All (λ y. trusts policy (ip y) ≡ true) passed
    → used + length passed ≤ policy.forwarded_chain_hops
    → (trusts policy (ip x) ≡ false) ⊎ (used + length passed ≡ policy.forwarded_chain_hops)
    → first_after_hops ip policy used (passed ++ x ∷ others) ≡ some x
unfolding first_after_hops
first_after_hops-passed ip policy used [] others x t b stop = ground arith
first_after_hops-passed ip policy used (y ∷ passed) others x (p, t) b stop =
    let rest =
      first_after_hops-passed ip policy (suc used) passed others x t (omega arith) (ground arith) in
    ground arith

All-reverse : {A : Type 0} (P : A → Type 0) (xs : List A) → All P xs → All P (reverse xs)
All-reverse P [] h = tt
All-reverse P (x ∷ xs) (p, h) =
    subst (All P) (sym (reverse-cons x xs))
      (All-append P (reverse xs) (x ∷ []) (All-reverse P xs h) (p, tt))

length-reverse : {A : Type 0} (xs : List A) → length (reverse xs) ≡ length xs
length-reverse [] = refl
length-reverse (x ∷ xs) =
    rw (reverse-cons x xs) (omega (arith, length-append (reverse xs) (x ∷ []), length-reverse xs))

reverse-around :
    {A : Type 0} (left right : List A) (x : A)
    → reverse (left ++ x ∷ right) ≡ reverse right ++ x ∷ reverse left
reverse-around left right x =
    rw
      (
        reverse-append left (x ∷ right),
        reverse-cons x right,
        append_assoc (reverse right) (x ∷ []) (reverse left),
      )
      refl

-- `x` is the client of the chain: the entries to its right are trusted and no more than the policy
-- allows, and either `x` is not trusted or they are as many as it allows.
abbrev pub IsClient : {A : Type 0} → (A → IpAddr) → TrustedProxyPolicy → List A → A → Type 0
IsClient {A} ip policy chain x =
    (forged : List A) × (hops : List A) × (chain ≡ forged ++ x ∷ hops)
    × All (λ y. trusts policy (ip y) ≡ true) hops
    × (length hops ≤ policy.forwarded_chain_hops)
    × ((trusts policy (ip x) ≡ false) ⊎ (length hops ≡ policy.forwarded_chain_hops))

pub first_after_hops_iff :
    {A : Type 0} (ip : A → IpAddr) (policy : TrustedProxyPolicy) (chain : List A) (x : A)
    → (first_after_hops ip policy 0 (reverse chain) ≡ some x) ↔ IsClient ip policy chain x
first_after_hops_iff ip policy chain x = (
  λ h.
      let (passed, others, e, t, b, stop) =
        first_after_hops-Stops ip policy 0 (reverse chain) x (omega arith) h in
      (
        reverse others,
        reverse passed,
        sym (reverse-reverse chain) ∙ ap reverse e ∙ reverse-around passed others x,
        All-reverse _ passed t,
        omega (arith, length-reverse passed),
        elim stop [ inl u ↦ inl u | inr f ↦ inr (omega (arith, length-reverse passed)) ],
      ),
  λ (forged, hops, e, t, b, stop).
      rw (e, reverse-around forged hops x)
        (first_after_hops-passed ip policy 0 (reverse hops) (reverse forged) x
          (All-reverse _ hops t) (omega (arith, length-reverse hops))
          (elim stop [ inl u ↦ inl u | inr f ↦ inr (omega (arith, length-reverse hops)) ])),
)

-- The selected client is exactly the chain's client: reading from the right, the first address that
-- is not trusted, or the one behind as many trusted hops as the policy allows. What stands to its
-- left, which anyone may have written, has no influence.
pub select_client_ip_iff :
    (policy : TrustedProxyPolicy) (clients : List IpAddr) (client : IpAddr)
    → (select_client_ip policy clients ≡ ok client) ↔ IsClient (λ ip. ip) policy clients client
unfolding select_client_ip
select_client_ip_iff policy clients client =
    let (to, from) = first_after_hops_iff (λ ip. ip) policy clients client in
    (
      λ h. elim (Option-cases (first_after_hops (λ ip. ip) policy 0 (reverse clients))) [
        | inl none_found ↦ absurd (ground arith)
        | inr (found, e) ↦ to (ground arith)
      ],
      λ h. rw (from h) refl,
    )

last_split :
    {A : Type 0} (x : A) (xs : List A)
    → (ys : List A) × (y : A) × (x ∷ xs ≡ ys ++ y ∷ [])
      × (last (x ∷ xs) ≡ some y)
      × (take (length xs) (x ∷ xs) ≡ ys)
last_split x [] = ([], x, refl, refl, refl)
last_split x (z ∷ xs) =
    let (ys, y, e, l, t) = last_split z xs in
    (x ∷ ys, y, ap (λ zs. x ∷ zs) e, l, ap (λ zs. x ∷ zs) t)

suc_pred : (n : ℕ) → suc n - 1 ≡ n
suc_pred n = omega arith

any-none :
    (xs : List ForwardedElement)
    → any (λ element. is_some element.scheme || is_some element.host) xs ≡ false
    → All (λ element. (element.scheme ≡ none) × (element.host ≡ none)) xs
any-none [] h = tt
any-none (x ∷ xs) h = (ground arith, any-none xs (ground arith))

-- A chain of elements that is accepted holds at most one element more than the hops allowed. Its
-- context has the address of the chain's client, and the scheme and the host of the last element,
-- which are the only ones of the chain.
pub forwarded_from-IsClient :
    (parsers : Parsers) (policy : TrustedProxyPolicy) (elements : List ForwardedElement)
    (context : ForwardedContext)
    → forwarded_from parsers policy elements ≡ ok context
    → (earlier : List ForwardedElement) × (edge : ForwardedElement) × (client : ForwardedElement)
      × (elements ≡ earlier ++ edge ∷ [])
      × All (λ element. (element.scheme ≡ none) × (element.host ≡ none)) earlier
      × (length elements ≤ policy.forwarded_chain_hops + 1)
      × IsClient (λ element. element.client_ip) policy elements client
      × (context.client_ip ≡ client.client_ip)
      × (context.scheme ≡ edge.scheme)
      × (context.host ≡ edge.host)
unfolding forwarded_from
forwarded_from-IsClient parsers policy [] context h = absurd (ground arith)
forwarded_from-IsClient parsers policy (x ∷ xs) context h =
    let (earlier, edge, e, l, t) = last_split x xs in
    let front = suc_pred (length xs) in
    let ip : ForwardedElement → IpAddr = λ element. element.client_ip in
    elim (Option-cases (first_after_hops ip policy 0 (reverse (x ∷ xs)))) [
      | inl none_found ↦ absurd (ground arith)
      | inr (client, found) ↦ (
        earlier,
        edge,
        client,
        e,
        any-none earlier (ground arith),
        ground arith,
        (first_after_hops_iff ip policy (x ∷ xs) client).0 found,
        ground arith,
        ground arith,
        ground arith,
      )
    ]
