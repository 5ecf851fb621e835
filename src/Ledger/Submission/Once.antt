-- ===== src/Ledger/Submission/Once.antt =====
-- The life of a batch in the ledger of crates/rustee-ai-batch/src/in_memory.rs, and its capacity.
use rustee_web_framework.Prelude.{
  ℕ, ◌≤◌, ◌≡◌, ◌≢◌, refl, sym, subst, ◌↔◌, ◌⊎◌, inl, inr, true, Option, none, some, List, [], ◌∷◌,
  arith, ◌==◌, length, Bool-cases, Option-cases,
}
use rustee_web_framework.Prelude.Result.{ok}
use rustee_web_framework.Text.{eqb, eqb_iff}
use rustee_web_framework.AssocMap.{
  length-insert_new, length-insert_old, get-insert, get-insert_other,
}
use rustee_web_framework.Ledger.Submission.{
  AiBatchReference, AiBatchReceipt, AiBatchReservation, InMemoryBatchState, Ledger, Operation,
  same_reference, lookup, set, ledger_new, reserve, record_submission, perform, run, reserve_call,
  record_call,
}

pub same_reference_iff : (a b : AiBatchReference) → (same_reference a b ≡ true) ↔ (a ≡ b)
same_reference_iff a b =
    ground (
      arith,
      eqb_iff a.scope b.scope,
      eqb_iff a.catalog_id b.catalog_id,
      eqb_iff a.run_key b.run_key,
    )

-- The life of a reference: unknown, then pending, then submitted with one receipt for good.
abbrev pub Advances : Option InMemoryBatchState → Option InMemoryBatchState → Type 0
Advances none new = Unit
Advances (some InMemoryBatchState.pending) none = ⊥
Advances (some InMemoryBatchState.pending) (some state) = Unit
Advances (some (InMemoryBatchState.submitted receipt)) new =
    new ≡ some (InMemoryBatchState.submitted receipt)

Advances-refl : (state : Option InMemoryBatchState) → Advances state state
Advances-refl none = tt
Advances-refl (some InMemoryBatchState.pending) = tt
Advances-refl (some (InMemoryBatchState.submitted receipt)) = refl

Advances-trans : (a b c : Option InMemoryBatchState) → Advances a b → Advances b c → Advances a c
Advances-trans none b c h k = tt
Advances-trans (some InMemoryBatchState.pending) none c h k = absurd h
Advances-trans (some InMemoryBatchState.pending) (some InMemoryBatchState.pending) none h k =
    absurd k
Advances-trans (some InMemoryBatchState.pending) (some InMemoryBatchState.pending) (some s) h k = tt
Advances-trans (some InMemoryBatchState.pending) (some (InMemoryBatchState.submitted r)) c h k =
    subst (Advances (some InMemoryBatchState.pending)) (sym k) tt
Advances-trans (some (InMemoryBatchState.submitted receipt)) b c h k = subst (λ o. Advances o c) h k

-- Setting a state that the reference's own may become lets no reference go back.
set-Advances :
    (reference other : AiBatchReference) (state : InMemoryBatchState) (ledger : Ledger)
    → Advances (lookup reference ledger) (some state)
    → Advances (lookup other ledger) (lookup other (set reference state ledger))
set-Advances reference other state ledger h = elim (Bool-cases (same_reference other reference)) [
  | inl same ↦
      subst (λ r. Advances (lookup r ledger) (lookup r (set reference state ledger)))
        (sym ((same_reference_iff other reference).0 same))
        (subst (Advances (lookup reference ledger))
          (sym (get-insert same_reference same_reference_iff reference state ledger.entries)) h)
  | inr apart ↦
      subst (Advances (lookup other ledger))
        (sym (
          get-insert_other same_reference same_reference_iff reference other state ledger.entries
            apart))
        (Advances-refl (lookup other ledger))
]

-- What one operation does to a ledger: nothing, or one state set to one that may follow it, with
-- room for a new reference.
abbrev Moves : Ledger → Ledger → Type 0
Moves ledger next =
    (next ≡ ledger)
    ⊎ (reference : AiBatchReference) × (state : InMemoryBatchState) × (next
        ≡ set reference state ledger)
      × Advances (lookup reference ledger) (some state)
      × ((lookup reference ledger ≡ none) → length ledger.entries ≢ ledger.capacity)

reserve-Moves :
    (reference : AiBatchReference) (ledger : Ledger) → Moves ledger (reserve reference ledger).1
unfolding reserve
reserve-Moves reference ledger = elim (Bool-cases ledger.poisoned) [
  | inl broken ↦ inl (simp broken refl)
  | inr sound ↦ elim (Option-cases (lookup reference ledger)) [
    | inl absent ↦ elim (Bool-cases (length ledger.entries == ledger.capacity)) [
      | inl full ↦ inl (simp (sound, absent, full) refl)
      | inr room ↦ inr (
        reference,
        InMemoryBatchState.pending,
        simp (sound, absent, room) refl,
        rw absent tt,
        λ _ e. ground arith,
      )
    ]
    | inr (InMemoryBatchState.pending, known) ↦ inl (simp (sound, known) refl)
    | inr (InMemoryBatchState.submitted receipt, known) ↦ inl (simp (sound, known) refl)
  ]
]

record_submission-Moves :
    (reference : AiBatchReference) (receipt : AiBatchReceipt) (ledger : Ledger)
    → Moves ledger (record_submission reference receipt ledger).1
unfolding record_submission
record_submission-Moves reference receipt ledger = elim (Bool-cases ledger.poisoned) [
  | inl broken ↦ inl (simp broken refl)
  | inr sound ↦ elim (Option-cases (lookup reference ledger)) [
    | inl absent ↦ inl (simp (sound, absent) refl)
    | inr (InMemoryBatchState.pending, known) ↦ inr (
      reference,
      InMemoryBatchState.submitted receipt,
      simp (sound, known) refl,
      rw known tt,
      λ e. absurd (ground arith),
    )
    | inr (InMemoryBatchState.submitted existing, known) ↦
        elim (Bool-cases (eqb existing.provider_batch_id receipt.provider_batch_id)) [
          | inl same ↦ inl (simp (sound, known, same) refl)
          | inr other ↦ inl (simp (sound, known, other) refl)
        ]
  ]
]

perform-Moves : (operation : Operation) (ledger : Ledger) → Moves ledger (perform operation ledger)
unfolding perform
perform-Moves (reserve_call reference) ledger = reserve-Moves reference ledger
perform-Moves (record_call reference receipt) ledger =
    record_submission-Moves reference receipt ledger

Moves-Advances :
    (ledger next : Ledger) (reference : AiBatchReference)
    → Moves ledger next
    → Advances (lookup reference ledger) (lookup reference next)
Moves-Advances ledger next reference (inl e) =
    subst (λ l. Advances (lookup reference ledger) (lookup reference l)) (sym e)
      (Advances-refl (lookup reference ledger))
Moves-Advances ledger next reference (inr (changed, state, e, h, _)) =
    subst (λ l. Advances (lookup reference ledger) (lookup reference l)) (sym e)
      (set-Advances changed reference state ledger h)

-- Whatever calls follow, in any order and from any number of workers, a reference that is known
-- stays known, and one that is submitted keeps its receipt.
pub run-Advances :
    (operations : List Operation) (ledger : Ledger) (reference : AiBatchReference)
    → Advances (lookup reference ledger) (lookup reference (run operations ledger))
unfolding run
run-Advances [] ledger reference = Advances-refl (lookup reference ledger)
run-Advances (operation ∷ operations) ledger reference =
    Advances-trans (lookup reference ledger) (lookup reference (perform operation ledger))
      (lookup reference (run operations (perform operation ledger)))
      (Moves-Advances ledger (perform operation ledger) reference (perform-Moves operation ledger))
      (run-Advances operations (perform operation ledger) reference)

Moves-Bounded :
    (ledger next : Ledger)
    → Moves ledger next
    → length ledger.entries ≤ ledger.capacity
    → (length next.entries ≤ next.capacity) × (next.capacity ≡ ledger.capacity)
Moves-Bounded ledger next (inl e) b = (rw e b, rw e refl)
Moves-Bounded ledger next (inr (reference, state, e, h, room)) b =
    elim (Option-cases (lookup reference ledger)) [
      | inl absent ↦
          let grown = length-insert_new same_reference reference state ledger.entries absent in
          let free = room absent in (rw (e, grown) (omega (arith, free)), rw e refl)
      | inr (old, known) ↦ (
        rw (e, length-insert_old same_reference reference state old ledger.entries known) b,
        rw e refl,
      )
    ]

run-Bounded :
    (operations : List Operation) (ledger : Ledger)
    → length ledger.entries ≤ ledger.capacity
    → length (run operations ledger).entries ≤ ledger.capacity
unfolding run
run-Bounded [] ledger b = b
run-Bounded (operation ∷ operations) ledger b =
    let (bound, same) =
      Moves-Bounded ledger (perform operation ledger) (perform-Moves operation ledger) b in
    let rest = run-Bounded operations (perform operation ledger) bound in (rw same at rest)

-- However it is used, a ledger never holds more references than the capacity it was made with.
ledger_new-run :
    (capacity : ℕ) (ledger : Ledger) (operations : List Operation)
    → ledger_new capacity ≡ some ledger
    → length (run operations ledger).entries ≤ capacity
unfolding ledger_new
ledger_new-run capacity ledger operations h =
    let empty : (length ledger.entries ≤ ledger.capacity) = ground arith in
    let same : (ledger.capacity ≡ capacity) = ground arith in
    let bound = run-Bounded operations ledger empty in
    subst (λ n. length (run operations ledger).entries ≤ n) same bound

-- `reserved` is the answer for an unknown reference, which is then known.
reserve-reserved :
    (reference : AiBatchReference) (ledger : Ledger)
    → (reserve reference ledger).0 ≡ ok AiBatchReservation.reserved
    → (lookup reference ledger ≡ none)
      × (lookup reference (reserve reference ledger).1 ≡ some InMemoryBatchState.pending)
unfolding reserve
reserve-reserved reference ledger h =
    let there =
      get-insert same_reference same_reference_iff reference InMemoryBatchState.pending
        ledger.entries in
    elim (Option-cases (lookup reference ledger)) [
      | inl absent ↦ (absent, ground arith)
      | inr (InMemoryBatchState.pending, known) ↦ absurd (ground arith)
      | inr (InMemoryBatchState.submitted receipt, known) ↦ absurd (ground arith)
    ]

-- Once a caller has been told that the reference is its own to submit, no later call of `reserve`
-- tells so, whatever other calls lie between.
pub reserve_once :
    (reference : AiBatchReference) (ledger : Ledger) (operations : List Operation)
    → (reserve reference ledger).0 ≡ ok AiBatchReservation.reserved
    → (reserve reference (run operations (reserve reference ledger).1)).0
      ≢ ok AiBatchReservation.reserved
reserve_once reference ledger operations h again =
    let (_, known) = reserve-reserved reference ledger h in
    let later = run operations (reserve reference ledger).1 in
    let (absent, _) = reserve-reserved reference later again in
    let kept = run-Advances operations (reserve reference ledger).1 reference in
    (rw (known, absent) at kept)
