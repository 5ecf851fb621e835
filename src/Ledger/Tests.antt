-- ===== src/Ledger/Tests.antt =====
-- The ledger of batches under concrete calls.
use rustee_web_framework.AssocMap.{get}
use rustee_web_framework.Prelude.{◌≡◌, ◌≢◌, refl, false, some, List, [], ◌∷◌}
use rustee_web_framework.Prelude.Result.{ok, err}
use rustee_web_framework.Text.{codes}
use rustee_web_framework.Ledger.Submission.{
  AiBatchReference, AiBatchReceipt, AiBatchReservation, InMemoryBatchState, LedgerError, Ledger,
  Operation, reserve_call, record_call, lookup, ledger_new, reserve, record_submission, run,
}
use rustee_web_framework.Ledger.Artifact.{
  AiBatchArtifactKind, AiBatchArtifactReference, InMemoryAiBatchArtifactState, ArtifactLedger,
  ArtifactOperation,
}
use rustee_web_framework.Ledger.Submission.Once.{Advances, run-Advances, reserve_once}

abbrev nightly : AiBatchReference
nightly = record { scope = codes "shop"; catalog_id = codes "items"; run_key = codes "2024-01-01" }

abbrev receipt : AiBatchReceipt
receipt = record { provider_batch_id = codes "batch_1" }

abbrev other_receipt : AiBatchReceipt
other_receipt = record { provider_batch_id = codes "batch_2" }

abbrev empty : Ledger
empty = record { entries = []; capacity = 1; poisoned = false }

made : ledger_new 1 ≡ some empty
unfolding ledger_new
made = refl

first_caller : (reserve nightly empty).0 ≡ ok AiBatchReservation.reserved
unfolding reserve get
first_caller = refl

abbrev submitted_ledger : Ledger
submitted_ledger = record {
  entries = (nightly, InMemoryBatchState.submitted receipt) ∷ [];
  capacity = 1;
  poisoned = false;
}

conflict :
    (record_submission nightly other_receipt submitted_ledger).0
    ≡ err LedgerError.conflicting_receipt
unfolding record_submission get
conflict = refl

abbrev calls : List Operation
calls = record_call nightly receipt ∷ reserve_call nightly ∷ record_call nightly other_receipt ∷ []

reserve_once_example :
    (reserve nightly (run calls (reserve nightly empty).1)).0 ≢ ok AiBatchReservation.reserved
reserve_once_example = reserve_once nightly empty calls first_caller

run-Advances_example :
    Advances (lookup nightly submitted_ledger) (lookup nightly (run calls submitted_ledger))
run-Advances_example = run-Advances calls submitted_ledger nightly

abbrev rows : AiBatchArtifactReference
rows = record {
  batch = nightly;
  kind = AiBatchArtifactKind.output;
  provider_file_id = codes "file_1";
  reconciliation_key = codes "first";
}

abbrev reconciled : ArtifactLedger
reconciled = record {
  entries = (rows, InMemoryAiBatchArtifactState.reconciled) ∷ [];
  capacity = 1;
  poisoned = false;
}

abbrev artifact_calls : List ArtifactOperation
artifact_calls = ArtifactOperation.reserve_call rows ∷ ArtifactOperation.record_call rows ∷ []
