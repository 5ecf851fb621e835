-- ===== src/Ledger/Artifact.antt =====
-- crates/rustee-ai-batch/src/in_memory.rs, `InMemoryAiBatchArtifactLedger`, with the reference of
-- crates/rustee-ai-batch/src/artifact/reference.rs. Its operations are steps on the state, as those
-- of the submission ledger are.
pub mod Reconciled
use rustee_web_framework.Prelude.{
  ℕ, Bool, true, false, ◌&&◌, Option, none, some, List, [], ◌∷◌, leb, ◌==◌, if◌then◌else◌, length,
}
use rustee_web_framework.Prelude.Result.{Result, ok, err}
use rustee_web_framework.Text.{Text, eqb}
use rustee_web_framework.AssocMap.{get, insert}
use rustee_web_framework.Ledger.Submission.{max_in_memory_records, AiBatchReference, same_reference}

pub data AiBatchArtifactKind : Type 0 where
  output error : AiBatchArtifactKind

pub record AiBatchArtifactReference : Type 0 where
  pub batch : AiBatchReference
  pub kind : AiBatchArtifactKind
  pub provider_file_id : Text
  pub reconciliation_key : Text

abbrev pub same_kind : AiBatchArtifactKind → AiBatchArtifactKind → Bool
same_kind AiBatchArtifactKind.output AiBatchArtifactKind.output = true
same_kind AiBatchArtifactKind.error AiBatchArtifactKind.error = true
same_kind AiBatchArtifactKind.output AiBatchArtifactKind.error = false
same_kind AiBatchArtifactKind.error AiBatchArtifactKind.output = false

abbrev pub same_artifact : AiBatchArtifactReference → AiBatchArtifactReference → Bool
same_artifact a b =
    same_reference a.batch b.batch
    && (same_kind a.kind b.kind
        && (eqb a.provider_file_id b.provider_file_id
            && eqb a.reconciliation_key b.reconciliation_key))

pub data InMemoryAiBatchArtifactState : Type 0 where
  pending reconciled : InMemoryAiBatchArtifactState

pub data AiBatchArtifactReservation : Type 0 where
  reserved reconciled pending : AiBatchArtifactReservation

pub data ArtifactLedgerError : Type 0 where
  capacity_exhausted state_unavailable missing_reservation : ArtifactLedgerError

pub record ArtifactLedger : Type 0 where
  pub entries : List (AiBatchArtifactReference × InMemoryAiBatchArtifactState)
  pub capacity : ℕ
  pub poisoned : Bool

abbrev pub lookup : AiBatchArtifactReference → ArtifactLedger → Option InMemoryAiBatchArtifactState
lookup reference ledger = get same_artifact reference ledger.entries

abbrev pub set :
    AiBatchArtifactReference → InMemoryAiBatchArtifactState → ArtifactLedger → ArtifactLedger
set reference state ledger = record ledger {
  entries = insert same_artifact reference state ledger.entries;
}

-- `InMemoryAiBatchArtifactLedger::new`; its only error is `InvalidInMemoryCapacity`.
unfoldable pub artifact_ledger_new : ℕ → Option ArtifactLedger
artifact_ledger_new capacity =
    if leb 1 capacity && leb capacity max_in_memory_records
    then some (record { entries = []; capacity = capacity; poisoned = false })
    else none

unfoldable pub reserve_artifact :
    AiBatchArtifactReference
    → ArtifactLedger
    → Result AiBatchArtifactReservation ArtifactLedgerError × ArtifactLedger
reserve_artifact reference ledger =
    if ledger.poisoned
    then (err ArtifactLedgerError.state_unavailable, ledger)
    else elim (lookup reference ledger) [
      | some InMemoryAiBatchArtifactState.pending ↦ (ok AiBatchArtifactReservation.pending, ledger)
      | some InMemoryAiBatchArtifactState.reconciled ↦
          (ok AiBatchArtifactReservation.reconciled, ledger)
      | none ↦
          if length ledger.entries == ledger.capacity
          then (err ArtifactLedgerError.capacity_exhausted, ledger)
          else (
            ok AiBatchArtifactReservation.reserved,
            set reference InMemoryAiBatchArtifactState.pending ledger,
          )
    ]

unfoldable pub record_reconciled :
    AiBatchArtifactReference
    → ArtifactLedger
    → Result (Unit {0}) ArtifactLedgerError × ArtifactLedger
record_reconciled reference ledger =
    if ledger.poisoned
    then (err ArtifactLedgerError.state_unavailable, ledger)
    else elim (lookup reference ledger) [
      | none ↦ (err ArtifactLedgerError.missing_reservation, ledger)
      | some state ↦ (ok tt, set reference InMemoryAiBatchArtifactState.reconciled ledger)
    ]

-- The calls that workers make, in the order in which they get the lock.
pub data ArtifactOperation : Type 0 where
  reserve_call record_call : AiBatchArtifactReference → ArtifactOperation

unfoldable pub perform : ArtifactOperation → ArtifactLedger → ArtifactLedger
perform (reserve_call reference) ledger = (reserve_artifact reference ledger).1
perform (record_call reference) ledger = (record_reconciled reference ledger).1

unfoldable pub run : List ArtifactOperation → ArtifactLedger → ArtifactLedger
unfolding perform
run [] ledger = ledger
run (operation ∷ operations) ledger = run operations (perform operation ledger)
