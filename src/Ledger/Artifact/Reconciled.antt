-- ===== src/Ledger/Artifact/Reconciled.antt =====
-- The life of an artifact in the ledger of crates/rustee-ai-batch/src/in_memory.rs.
use rustee_web_framework.Prelude.{
  ◌≡◌, ◌≢◌, refl, sym, subst, ◌↔◌, ◌⊎◌, inl, inr, true, Option, none, some, List, [], ◌∷◌, arith,
  ◌==◌, length, Bool-cases, Option-cases,
}
use rustee_web_framework.Text.{eqb_iff}
use rustee_web_framework.AssocMap.{get-insert, get-insert_other}
use rustee_web_framework.Ledger.Submission.Once.{same_reference_iff}
use rustee_web_framework.Ledger.Artifact.{
  AiBatchArtifactKind, AiBatchArtifactReference, InMemoryAiBatchArtifactState, ArtifactLedger,
  ArtifactOperation, same_kind, same_artifact, lookup, set, reserve_artifact, record_reconciled,
  perform, run, reserve_call, record_call,
}

same_kind_iff : (a b : AiBatchArtifactKind) → (same_kind a b ≡ true) ↔ (a ≡ b)
same_kind_iff AiBatchArtifactKind.output AiBatchArtifactKind.output = (λ _. refl, λ _. refl)
same_kind_iff AiBatchArtifactKind.error AiBatchArtifactKind.error = (λ _. refl, λ _. refl)
same_kind_iff AiBatchArtifactKind.output AiBatchArtifactKind.error = (λ h. cc, λ h. cc)
same_kind_iff AiBatchArtifactKind.error AiBatchArtifactKind.output = (λ h. cc, λ h. cc)

same_artifact_iff : (a b : AiBatchArtifactReference) → (same_artifact a b ≡ true) ↔ (a ≡ b)
same_artifact_iff a b = ground (
  arith,
  same_reference_iff a.batch b.batch,
  same_kind_iff a.kind b.kind,
  eqb_iff a.provider_file_id b.provider_file_id,
  eqb_iff a.reconciliation_key b.reconciliation_key,
)

-- The life of an artifact: unknown, then pending, then reconciled for good.
abbrev pub Follows :
    Option InMemoryAiBatchArtifactState → Option InMemoryAiBatchArtifactState → Type 0
Follows none new = Unit
Follows (some InMemoryAiBatchArtifactState.pending) new = new ≢ none
Follows (some InMemoryAiBatchArtifactState.reconciled) new =
    new ≡ some InMemoryAiBatchArtifactState.reconciled

Follows-refl : (state : Option InMemoryAiBatchArtifactState) → Follows state state
Follows-refl none = tt
Follows-refl (some InMemoryAiBatchArtifactState.pending) = λ e. cc
Follows-refl (some InMemoryAiBatchArtifactState.reconciled) = refl

Follows-trans :
    (a b c : Option InMemoryAiBatchArtifactState) → Follows a b → Follows b c → Follows a c
Follows-trans none b c h k = tt
Follows-trans (some InMemoryAiBatchArtifactState.pending) none c h k = absurd (h refl)
Follows-trans (some InMemoryAiBatchArtifactState.pending)
      (some InMemoryAiBatchArtifactState.pending) c h k =
    k
Follows-trans (some InMemoryAiBatchArtifactState.pending)
      (some InMemoryAiBatchArtifactState.reconciled) c h k =
    λ e. cc
Follows-trans (some InMemoryAiBatchArtifactState.reconciled) b c h k = subst (λ o. Follows o c) h k

set-Follows :
    (reference other : AiBatchArtifactReference) (state : InMemoryAiBatchArtifactState)
    (ledger : ArtifactLedger)
    → Follows (lookup reference ledger) (some state)
    → Follows (lookup other ledger) (lookup other (set reference state ledger))
set-Follows reference other state ledger h = elim (Bool-cases (same_artifact other reference)) [
  | inl same ↦
      subst (λ r. Follows (lookup r ledger) (lookup r (set reference state ledger)))
        (sym ((same_artifact_iff other reference).0 same))
        (subst (Follows (lookup reference ledger))
          (sym (get-insert same_artifact same_artifact_iff reference state ledger.entries)) h)
  | inr apart ↦
      subst (Follows (lookup other ledger))
        (sym (
          get-insert_other same_artifact same_artifact_iff reference other state ledger.entries
            apart))
        (Follows-refl (lookup other ledger))
]

-- What one operation does: nothing, or one state set to one that may follow it.
abbrev Moves : ArtifactLedger → ArtifactLedger → Type 0
Moves ledger next =
    (next ≡ ledger)
    ⊎ (reference : AiBatchArtifactReference) × (state : InMemoryAiBatchArtifactState) × (next
        ≡ set reference state ledger)
      × Follows (lookup reference ledger) (some state)

reconciled-Follows :
    (state : InMemoryAiBatchArtifactState)
    → Follows (some state) (some InMemoryAiBatchArtifactState.reconciled)
reconciled-Follows InMemoryAiBatchArtifactState.pending = λ e. cc
reconciled-Follows InMemoryAiBatchArtifactState.reconciled = refl

reserve_artifact-Moves :
    (reference : AiBatchArtifactReference) (ledger : ArtifactLedger)
    → Moves ledger (reserve_artifact reference ledger).1
unfolding reserve_artifact
reserve_artifact-Moves reference ledger = elim (Bool-cases ledger.poisoned) [
  | inl broken ↦ inl (simp broken refl)
  | inr sound ↦ elim (Option-cases (lookup reference ledger)) [
    | inl absent ↦ elim (Bool-cases (length ledger.entries == ledger.capacity)) [
      | inl full ↦ inl (simp (sound, absent, full) refl)
      | inr room ↦ inr (
        reference,
        InMemoryAiBatchArtifactState.pending,
        simp (sound, absent, room) refl,
        rw absent tt,
      )
    ]
    | inr (InMemoryAiBatchArtifactState.pending, known) ↦ inl (simp (sound, known) refl)
    | inr (InMemoryAiBatchArtifactState.reconciled, known) ↦ inl (simp (sound, known) refl)
  ]
]

record_reconciled-Moves :
    (reference : AiBatchArtifactReference) (ledger : ArtifactLedger)
    → Moves ledger (record_reconciled reference ledger).1
unfolding record_reconciled
record_reconciled-Moves reference ledger = elim (Bool-cases ledger.poisoned) [
  | inl broken ↦ inl (simp broken refl)
  | inr sound ↦ elim (Option-cases (lookup reference ledger)) [
    | inl absent ↦ inl (simp (sound, absent) refl)
    | inr (state, known) ↦ inr (
      reference,
      InMemoryAiBatchArtifactState.reconciled,
      simp (sound, known) refl,
      rw known (reconciled-Follows state),
    )
  ]
]

perform-Moves :
    (operation : ArtifactOperation) (ledger : ArtifactLedger)
    → Moves ledger (perform operation ledger)
unfolding perform
perform-Moves (reserve_call reference) ledger = reserve_artifact-Moves reference ledger
perform-Moves (record_call reference) ledger = record_reconciled-Moves reference ledger

Moves-Follows :
    (ledger next : ArtifactLedger) (reference : AiBatchArtifactReference)
    → Moves ledger next
    → Follows (lookup reference ledger) (lookup reference next)
Moves-Follows ledger next reference (inl e) =
    subst (λ l. Follows (lookup reference ledger) (lookup reference l)) (sym e)
      (Follows-refl (lookup reference ledger))
Moves-Follows ledger next reference (inr (changed, state, e, h)) =
    subst (λ l. Follows (lookup reference ledger) (lookup reference l)) (sym e)
      (set-Follows changed reference state ledger h)

-- Whatever calls follow, in any order and from any number of workers, an artifact that is known
-- stays known, and one that is reconciled stays reconciled.
run-Follows :
    (operations : List ArtifactOperation) (ledger : ArtifactLedger)
    (reference : AiBatchArtifactReference)
    → Follows (lookup reference ledger) (lookup reference (run operations ledger))
unfolding run
run-Follows [] ledger reference = Follows-refl (lookup reference ledger)
run-Follows (operation ∷ operations) ledger reference =
    Follows-trans (lookup reference ledger) (lookup reference (perform operation ledger))
      (lookup reference (run operations (perform operation ledger)))
      (Moves-Follows ledger (perform operation ledger) reference (perform-Moves operation ledger))
      (run-Follows operations (perform operation ledger) reference)
