-- ===== src/Ledger/Submission.antt =====
-- crates/rustee-ai-batch/src/in_memory.rs, `InMemoryAiBatchLedger`, with the reference and the
-- receipt of crates/rustee-ai-batch/src/submission/contracts.rs. Each operation holds the lock from
-- its start to its end, so it is one step on the state; `poisoned` says that locking fails.
pub mod Once
use rustee_web_framework.Prelude.{
  ℕ, ◌≡◌, Bool, true, false, ◌&&◌, ◌||◌, Option, none, some, List, [], ◌∷◌, leb, ◌==◌,
  if◌then◌else◌, length,
}
use rustee_web_framework.Prelude.Result.{Result, ok, err}
use rustee_web_framework.Text.{Text, eqb}
use rustee_web_framework.AssocMap.{get, insert}

abbrev pub max_in_memory_records : ℕ
max_in_memory_records = 10000

pub record AiBatchReference : Type 0 where
  pub scope : Text
  pub catalog_id : Text
  pub run_key : Text

pub record AiBatchReceipt : Type 0 where
  pub provider_batch_id : Text

abbrev pub same_reference : AiBatchReference → AiBatchReference → Bool
same_reference a b =
    eqb a.scope b.scope && (eqb a.catalog_id b.catalog_id && eqb a.run_key b.run_key)

pub data AiBatchReservation : Type 0 where
  reserved : AiBatchReservation
  submitted : AiBatchReceipt → AiBatchReservation
  pending : AiBatchReservation

pub data InMemoryBatchState : Type 0 where
  pending : InMemoryBatchState
  submitted : AiBatchReceipt → InMemoryBatchState

pub data LedgerError : Type 0 where
  capacity_exhausted state_unavailable missing_reservation conflicting_receipt : LedgerError

pub record Ledger : Type 0 where
  pub entries : List (AiBatchReference × InMemoryBatchState)
  pub capacity : ℕ
  pub poisoned : Bool

abbrev pub lookup : AiBatchReference → Ledger → Option InMemoryBatchState
lookup reference ledger = get same_reference reference ledger.entries

abbrev pub set : AiBatchReference → InMemoryBatchState → Ledger → Ledger
set reference state ledger = record ledger {
  entries = insert same_reference reference state ledger.entries;
}

-- `InMemoryAiBatchLedger::new`; its only error is `InvalidInMemoryCapacity`.
unfoldable pub ledger_new : ℕ → Option Ledger
ledger_new capacity =
    if leb 1 capacity && leb capacity max_in_memory_records
    then some (record { entries = []; capacity = capacity; poisoned = false })
    else none

unfoldable pub reserve : AiBatchReference → Ledger → Result AiBatchReservation LedgerError × Ledger
reserve reference ledger =
    if ledger.poisoned
    then (err LedgerError.state_unavailable, ledger)
    else elim (lookup reference ledger) [
      | some InMemoryBatchState.pending ↦ (ok AiBatchReservation.pending, ledger)
      | some (InMemoryBatchState.submitted receipt) ↦
          (ok (AiBatchReservation.submitted receipt), ledger)
      | none ↦
          if length ledger.entries == ledger.capacity
          then (err LedgerError.capacity_exhausted, ledger)
          else (ok AiBatchReservation.reserved, set reference InMemoryBatchState.pending ledger)
    ]

unfoldable pub record_submission :
    AiBatchReference → AiBatchReceipt → Ledger → Result (Unit {0}) LedgerError × Ledger
record_submission reference receipt ledger =
    if ledger.poisoned
    then (err LedgerError.state_unavailable, ledger)
    else elim (lookup reference ledger) [
      | none ↦ (err LedgerError.missing_reservation, ledger)
      | some InMemoryBatchState.pending ↦
          (ok tt, set reference (InMemoryBatchState.submitted receipt) ledger)
      | some (InMemoryBatchState.submitted existing) ↦
          if eqb existing.provider_batch_id receipt.provider_batch_id
          then (ok tt, ledger)
          else (err LedgerError.conflicting_receipt, ledger)
    ]

-- The calls that workers make, in the order in which they get the lock.
pub data Operation : Type 0 where
  reserve_call : AiBatchReference → Operation
  record_call : AiBatchReference → AiBatchReceipt → Operation

unfoldable pub perform : Operation → Ledger → Ledger
perform (reserve_call reference) ledger = (reserve reference ledger).1
perform (record_call reference receipt) ledger = (record_submission reference receipt ledger).1

unfoldable pub run : List Operation → Ledger → Ledger
unfolding perform
run [] ledger = ledger
run (operation ∷ operations) ledger = run operations (perform operation ledger)
