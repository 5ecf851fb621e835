-- ===== src/Oidc/Transaction/Once.antt =====
-- What the store of crates/rustee-auth-oidc/src/browser_login/transaction.rs keeps of a state.
use rustee_web_framework.Prelude.{
  ℕ, ◌≤◌, ◌≡◌, refl, ap, subst, ◌∙◌, inl, inr, false, none, some, List, [], ◌∷◌, arith, length,
  Bool-cases, Option-cases, All,
}
use rustee_web_framework.Prelude.Result.{ok}
use rustee_web_framework.Text.{Text, eqb, eqb_iff}
use rustee_web_framework.AssocMap.{
  get, remove, retain, contains_key, get-insert_other, length-insert_new,
}
use rustee_web_framework.AssocMap.Distinct.{
  length-retain, length-remove, get-retain_none, get-remove, get-remove_other,
}
use rustee_web_framework.Oidc.Transaction.{
  max_in_memory_transactions, PendingAuthorization, is_expired, live,
  InMemoryAuthorizationTransactionStore, save, take,
}

abbrev Entries : Type 0
Entries = List (Text × PendingAuthorization)

-- The calls on the store, in the order in which they get the lock.
pub data Call : Type 0 where
  save_call : ℕ → PendingAuthorization → Call
  take_call : Text → Call

unfoldable pub perform :
    Call → InMemoryAuthorizationTransactionStore → InMemoryAuthorizationTransactionStore
perform (save_call now transaction) store = (save now transaction store).1
perform (take_call state) store = (take state store).1

unfoldable pub run :
    List Call → InMemoryAuthorizationTransactionStore → InMemoryAuthorizationTransactionStore
run [] store = store
run (call ∷ calls) store = run calls (perform call store)

-- The call saves nothing under the state.
abbrev pub Spares : Text → Call → Type 0
Spares state (save_call now transaction) = eqb state transaction.state ≡ false
Spares state (take_call other) = Unit

save_none :
    (now : ℕ) (state : Text) (transaction : PendingAuthorization)
    (store : InMemoryAuthorizationTransactionStore)
    → eqb state transaction.state ≡ false
    → get eqb state store.transactions ≡ none
    → get eqb state (save now transaction store).1.transactions ≡ none
unfolding save
save_none now state transaction store apart absent =
    let kept = get-retain_none eqb (live now) state store.transactions absent in
    let put =
      get-insert_other eqb eqb_iff transaction.state state transaction
        (retain (live now) store.transactions) apart in
    ground (arith, absent, kept, put)

remove_none :
    (state other : Text) (entries : Entries)
    → get eqb state entries ≡ none
    → get eqb state (remove eqb other entries) ≡ none
remove_none state other entries absent = elim (Bool-cases (eqb state other)) [
  | inl at ↦
      subst (λ other. get eqb state (remove eqb other entries) ≡ none) ((eqb_iff state other).0 at)
        (get-remove eqb eqb_iff state entries)
  | inr away ↦ get-remove_other eqb eqb_iff other state entries away ∙ absent
]

take_none :
    (state other : Text) (store : InMemoryAuthorizationTransactionStore)
    → get eqb state store.transactions ≡ none
    → get eqb state (take other store).1.transactions ≡ none
unfolding take
take_none state other store absent =
    ground (arith, remove_none state other store.transactions absent)

perform_none :
    (state : Text) (call : Call) (store : InMemoryAuthorizationTransactionStore)
    → Spares state call
    → get eqb state store.transactions ≡ none
    → get eqb state (perform call store).transactions ≡ none
unfolding perform
perform_none state (save_call now transaction) store spares absent =
    save_none now state transaction store spares absent
perform_none state (take_call other) store spares absent = take_none state other store absent

run_none :
    (state : Text) (calls : List Call) (store : InMemoryAuthorizationTransactionStore)
    → All (Spares state) calls
    → get eqb state store.transactions ≡ none
    → get eqb state (run calls store).transactions ≡ none
unfolding run
run_none state [] store spares absent = absent
run_none state (call ∷ calls) store (spares, rest) absent =
    run_none state calls (perform call store) rest (perform_none state call store spares absent)

perform_sound :
    (call : Call) (store : InMemoryAuthorizationTransactionStore)
    → (perform call store).poisoned ≡ store.poisoned
unfolding perform save take
perform_sound (save_call now transaction) store = ground arith
perform_sound (take_call state) store = ground arith

run_sound :
    (calls : List Call) (store : InMemoryAuthorizationTransactionStore)
    → (run calls store).poisoned ≡ store.poisoned
unfolding run
run_sound [] store = refl
run_sound (call ∷ calls) store = run_sound calls (perform call store) ∙ perform_sound call store

take_sound :
    (state : Text) (store : InMemoryAuthorizationTransactionStore)
    → store.poisoned ≡ false
    → take state store ≡ (
      ok (get eqb state store.transactions),
      record store { transactions = remove eqb state store.transactions },
    )
unfolding take
take_sound state store sound = simp sound refl

-- A state that was taken from a sound store is found by no later `take`, whatever the answer was,
-- as long as no call between them saves a transaction under it.
pub take_once :
    (state : Text) (calls : List Call) (store : InMemoryAuthorizationTransactionStore)
    → store.poisoned ≡ false
    → All (Spares state) calls
    → (take state (run calls (take state store).1)).0 ≡ ok none
unfolding perform
take_once state calls store sound spares =
    let after = run calls (take state store).1 in
    let taken =
      ap (λ r. get eqb state r.1.transactions) (take_sound state store sound)
      ∙ get-remove eqb eqb_iff state store.transactions in
    let absent = run_none state calls (take state store).1 spares taken in
    let still =
      run_sound calls (take state store).1 ∙ perform_sound (take_call state) store ∙ sound in
    ap (λ r. r.0) (take_sound state after still) ∙ ap ok absent

get-retain-some :
    (now : ℕ) (state : Text) (pending : PendingAuthorization) (entries : Entries)
    → get eqb state entries ≡ some pending
    → is_expired now pending ≡ false
    → get eqb state (retain (live now) entries) ≡ some pending
unfolding get retain
get-retain-some now state pending [] h fresh = absurd (ground (arith, h))
get-retain-some now state pending ((key, other) ∷ entries) h fresh =
    let rest = get-retain-some now state pending entries in
    elim (Bool-cases (eqb state key)) [
      | inl at ↦
          let same : (other ≡ pending) = ground (arith, at, h) in ground (arith, at, same, fresh)
      | inr away ↦ ground (arith, away, h, rest, fresh)
    ]

-- No call of `save` replaces or drops a transaction that is not expired.
save_keeps :
    (now : ℕ) (state : Text) (pending transaction : PendingAuthorization)
    (store : InMemoryAuthorizationTransactionStore)
    → get eqb state store.transactions ≡ some pending
    → is_expired now pending ≡ false
    → get eqb state (save now transaction store).1.transactions ≡ some pending
unfolding save contains_key
save_keeps now state pending transaction store h fresh =
    let kept = get-retain-some now state pending store.transactions h fresh in
    let entries = retain (live now) store.transactions in
    elim (Bool-cases (eqb state transaction.state)) [
      | inl at ↦
          let same = (eqb_iff state transaction.state).0 at in
          let there : (get eqb transaction.state entries ≡ some pending) =
            subst (λ key. get eqb key entries ≡ some pending) same kept in
          ground (arith, h, kept, there)
      | inr away ↦
          let put = get-insert_other eqb eqb_iff transaction.state state transaction entries away in
          ground (arith, h, kept, put)
    ]

save-Bounded :
    (now : ℕ) (transaction : PendingAuthorization) (store : InMemoryAuthorizationTransactionStore)
    → length store.transactions ≤ max_in_memory_transactions
    → length (save now transaction store).1.transactions ≤ max_in_memory_transactions
unfolding save contains_key
save-Bounded now transaction store h =
    let entries = retain (live now) store.transactions in
    let fewer = length-retain eqb (live now) store.transactions in
    let grown = length-insert_new eqb transaction.state transaction entries in
    elim (Option-cases (get eqb transaction.state entries)) [
      | inl absent ↦ ground (arith, h, fewer, absent, grown absent)
      | inr (old, known) ↦ ground (arith, h, fewer, known)
    ]

take-Bounded :
    (state : Text) (store : InMemoryAuthorizationTransactionStore)
    → length store.transactions ≤ max_in_memory_transactions
    → length (take state store).1.transactions ≤ max_in_memory_transactions
unfolding take
take-Bounded state store h =
    let fewer = length-remove eqb state store.transactions in ground (arith, h, fewer)

-- However it is called, a store that holds at most 1024 transactions goes on to.
run-Bounded :
    (calls : List Call) (store : InMemoryAuthorizationTransactionStore)
    → length store.transactions ≤ max_in_memory_transactions
    → length (run calls store).transactions ≤ max_in_memory_transactions
unfolding run perform
run-Bounded [] store h = h
run-Bounded (save_call now transaction ∷ calls) store h =
    run-Bounded calls (save now transaction store).1 (save-Bounded now transaction store h)
run-Bounded (take_call state ∷ calls) store h =
    run-Bounded calls (take state store).1 (take-Bounded state store h)
