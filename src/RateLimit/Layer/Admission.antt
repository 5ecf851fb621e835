-- ===== src/RateLimit/Layer/Admission.antt =====
-- crates/rustee-rate-limit/src/middleware.rs: the requests that the windows of a key let through.
use rustee_web_framework.Prelude.{
  ℕ, suc, ◌+◌, ◌*◌, ◌-◌, ◌≤◌, ◌≡◌, sym, ap, subst, ◌∙◌, ◌⊎◌, inl, inr, Bool, true, false, none,
  some, List, [], ◌∷◌, leb, min, arith, if◌then◌else◌, Option-cases, Bool-cases,
}
use rustee_web_framework.Prelude.Result.{Result, ok, err, Result-cases}
use rustee_web_framework.Text.{eqb, eqb_iff, eqb_refl}
use rustee_web_framework.RateLimit.Policy.{RateLimitKey, RateLimitDecision, StoreFailurePolicy}
use rustee_web_framework.RateLimit.Layer.{Deployment, call, settle}

-- What a fixed-window store keeps for a key: how many windows were opened for it, and how many
-- requests are counted in the last of them.
pub record Counter : Type 0 where
  pub windows : ℕ
  pub used : ℕ

-- A request is counted: in the window of the key that is open, or as the first of a new one.
abbrev pub Counted : Counter → Counter → Type 0
Counted before after =
    ((after.windows ≡ before.windows) × (after.used ≡ suc before.used))
    ⊎ ((after.windows ≡ suc before.windows) × (after.used ≡ 1))

-- The contract of `RateLimitStore::check` for the key that it is asked for: the request is counted,
-- and allowed while the window's count is within the limit. A failure may come before or after that.
abbrev pub Answers :
    {Failure : Type 0} → ℕ → Counter → Result RateLimitDecision Failure → Counter → Type 0
Answers limit before (ok decision) after =
    Counted before after × (decision.allowed ≡ leb after.used limit)
Answers limit before (err failure) after = (after ≡ before) ⊎ Counted before after

-- What a counter has let through at most.
abbrev admitted : ℕ → Counter → ℕ
admitted limit counter = limit * counter.windows + min counter.used limit

Counted-admitted :
    (limit : ℕ) (before after : Counter)
    → Counted before after
    → (if leb after.used limit then 1 else 0) + admitted limit before ≤ admitted limit after
Counted-admitted limit before after (inl (same, next)) = rw (same, next) (ground arith)
Counted-admitted limit before after (inr (new, first)) = rw (new, first) (ground arith)

Counted-windows : (before after : Counter) → Counted before after → before.windows ≤ after.windows
Counted-windows before after (inl (same, next)) = rw same (omega arith)
Counted-windows before after (inr (new, first)) = rw new (omega arith)

admitted-bound :
    (limit a b w d : ℕ) (before after : ℕ)
    → b + (limit * w + min before limit) ≤ a + (limit * (w + d) + min after limit)
    → b ≤ a + limit * suc d
admitted-bound limit a b w d before after h = grind arith

module _ {Request Response Store App Failure : Type 0}
    (layer : Deployment Request Response Store App Failure) where
  -- Requests in the order of their arrival.
  unfoldable pub serve : List Request → Store → App → Store × App
  serve [] store app = (store, app)
  serve (request ∷ requests) store app =
      let answer = call layer request store app in serve requests answer.1.0 answer.1.1

  -- The request counts for the key.
  abbrev pub is_for : RateLimitKey → Request → Bool
  is_for key request = elim (layer.resolve request) [
    | none ↦ false
    | some other ↦ eqb other.value key.value
  ]

  module _ (counter : Store → RateLimitKey → Counter) (calls : App → RateLimitKey → ℕ) where
    -- The application's calls, one for each request of the key that reaches it.
    abbrev pub Tallies : Type 0
    Tallies =
        (app : App) (request : Request) (key : RateLimitKey)
        → calls (layer.inner app request).1 key
          ≡ (if is_for key request then suc (calls app key) else calls app key)

    -- The store keeps the contract for every key, and leaves the other keys alone.
    abbrev pub CountsByKey : Type 0
    CountsByKey =
        (store : Store) (key : RateLimitKey)
        → Answers layer.policy.limit (counter store key) (layer.check store key layer.policy).0
            (counter (layer.check store key layer.policy).1 key)
          × ((other : RateLimitKey)
              → (eqb key.value other.value ≡ false)
              → counter (layer.check store key layer.policy).1 other ≡ counter store other)

    -- What one call does to a key's balance.
    abbrev Kept : RateLimitKey → Store → App → Store → App → Type 0
    Kept key store app store' app' =
        (calls app' key + admitted layer.policy.limit (counter store key)
          ≤ calls app key + admitted layer.policy.limit (counter store' key))
        × ((counter store key).windows ≤ (counter store' key).windows)

    call_other :
        (request : Request) (store : Store) (app : App) (key other : RateLimitKey)
        → Tallies
        → CountsByKey
        → layer.failure_policy ≡ StoreFailurePolicy.fail_closed
        → layer.resolve request ≡ some other
        → eqb other.value key.value ≡ false
        → Kept key store app (call layer request store app).1.0 (call layer request store app).1.1
    unfolding call settle
    call_other request store app key other tallies counts closed found away =
        let tally = tallies app request key in
        let for_other : (is_for key request ≡ false) = rw (found, is_for) away in
        let same : (calls (layer.inner app request).1 key ≡ calls app key) =
          ground (arith, tally, for_other) in
        let kept = (counts store other).1 key away in
        elim (Result-cases (layer.check store other layer.policy).0) [
          | inl (decision, answer) ↦ elim (Bool-cases decision.allowed) [
            | inl allowed ↦
                rw (found, answer, allowed, kept, same, call, settle) (omega arith, omega arith)
            | inr denied ↦ rw (found, answer, denied, kept, call, settle) (omega arith, omega arith)
          ]
          | inr (failure, answer) ↦
              rw (found, answer, closed, kept, call, settle) (omega arith, omega arith)
        ]

    call_own :
        (request : Request) (store : Store) (app : App) (key : RateLimitKey)
        → Tallies
        → CountsByKey
        → layer.failure_policy ≡ StoreFailurePolicy.fail_closed
        → layer.resolve request ≡ some key
        → Kept key store app (call layer request store app).1.0 (call layer request store app).1.1
    unfolding call settle
    call_own request store app key tallies counts closed found =
        let tally = tallies app request key in
        let for_key : (is_for key request ≡ true) = rw (found, is_for) (eqb_refl key.value) in
        let one : (calls (layer.inner app request).1 key ≡ suc (calls app key)) =
          ground (arith, tally, for_key) in
        let told = (counts store key).0 in
        let limit = layer.policy.limit in
        let before = counter store key in
        let after = counter (layer.check store key layer.policy).1 key in
        elim (Result-cases (layer.check store key layer.policy).0) [
          | inl (decision, answer) ↦
              let (counted, within) = rw answer at told in
              let grown = Counted-admitted limit before after counted in
              let order = Counted-windows before after counted in
              elim (Bool-cases decision.allowed) [
                | inl allowed ↦
                    let room : (leb after.used limit ≡ true) = sym within ∙ allowed in
                    rw (found, answer, allowed, one, call, settle)
                      (ground (arith, grown, room), order)
                | inr denied ↦
                    rw (found, answer, denied, call, settle) (omega (arith, grown), order)
              ]
          | inr (failure, answer) ↦ elim (rw answer at told) [
            | inl same ↦ rw (found, answer, closed, same, call, settle) (omega arith, omega arith)
            | inr counted ↦
                let grown = Counted-admitted limit before after counted in
                rw (found, answer, closed, call, settle)
                  (omega (arith, grown), Counted-windows before after counted)
          ]
        ]

    call-Kept :
        (request : Request) (store : Store) (app : App) (key : RateLimitKey)
        → Tallies
        → CountsByKey
        → layer.failure_policy ≡ StoreFailurePolicy.fail_closed
        → Kept key store app (call layer request store app).1.0 (call layer request store app).1.1
    unfolding call
    call-Kept request store app key tallies counts closed =
        elim (Option-cases (layer.resolve request)) [
          | inl missing ↦ rw (missing, call) (omega arith, omega arith)
          | inr (other, found) ↦ elim (Bool-cases (eqb other.value key.value)) [
            | inl same ↦
                let equal : (other ≡ key) =
                  ap (λ value. record { value = value }) ((eqb_iff other.value key.value).0 same) in
                call_own request store app key tallies counts closed (found ∙ ap some equal)
            | inr away ↦ call_other request store app key other tallies counts closed found away
          ]
        ]

    serve-Kept :
        (requests : List Request) (store : Store) (app : App) (key : RateLimitKey)
        → Tallies
        → CountsByKey
        → layer.failure_policy ≡ StoreFailurePolicy.fail_closed
        → Kept key store app (serve requests store app).0 (serve requests store app).1
    unfolding serve
    serve-Kept [] store app key tallies counts closed = (omega arith, omega arith)
    serve-Kept (request ∷ requests) store app key tallies counts closed =
        let answer = call layer request store app in
        let (first, order) = call-Kept request store app key tallies counts closed in
        let (rest, later) = serve-Kept requests answer.1.0 answer.1.1 key tallies counts closed in
        (omega (arith, first, rest), omega (arith, order, later))

    -- With a store that counts requests by key in fixed windows, and a layer that fails closed,
    -- whatever requests arrive: for each key, the application is called for the key's requests no
    -- more often than the limit of the policy for the window that is open at the start, and for each
    -- window that the store opens for the key while they are served. A request that the application
    -- is called for is tallied under the key that the resolver gives it.
    pub serve-windows :
        Tallies
        → CountsByKey
        → layer.failure_policy ≡ StoreFailurePolicy.fail_closed
        → (requests : List Request) (store : Store) (app : App) (key : RateLimitKey)
        → calls (serve requests store app).1 key
          ≤ calls app key
            + layer.policy.limit
              * suc
                  ((counter (serve requests store app).0 key).windows - (counter store key).windows)
    serve-windows tallies counts closed requests store app key =
        let (balance, order) = serve-Kept requests store app key tallies counts closed in
        let after = counter (serve requests store app).0 key in
        let before = counter store key in
        let gap = after.windows - before.windows in
        let reached : (after.windows ≡ before.windows + gap) = omega (arith, order) in
        admitted-bound layer.policy.limit (calls app key) (calls (serve requests store app).1 key)
          before.windows gap before.used after.used
          (subst
            (λ w.
              calls (serve requests store app).1 key
                + (layer.policy.limit * before.windows + min before.used layer.policy.limit)
              ≤ calls app key + (layer.policy.limit * w + min after.used layer.policy.limit))
            reached balance)
