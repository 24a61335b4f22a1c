-- ===== src/Ingestion/ManualZip.antt =====
-- The trigger tr_finalize_manual_zip_items, which closes the items of a manual ZIP job when its
-- status becomes an end and counts them again
-- (database/migrations/1787690900000-PhaseTwoZipIngestion.ts). It reads the clock with the
-- statement that fires it. Not modelled are the retention of the stored objects, which it sets too,
-- and the trigger trg_ingestion_items_mark_counters_dirty, by which a change of an item clears the
-- job's `counters_reconciled_at`: the column is set again here, but where it was set while items were
-- open, PostgreSQL may refuse the statement, which rolls the call back.
pub mod Laws
use balanz.Prelude.{
  ℕ, String, ◌+◌, Bool, eqb, true, false, not, ◌&&◌, List, Option, none, some, count, update_where,
  if◌then◌else◌,
}
use balanz.Ingestion.Job.{
  IngestionJob, IngestionItem, Counters, JobDb, JobStatus, SourceType, ItemStatus, ItemResult,
  is_processing, is_cancel_requested, is_cancelled, is_ended,
}
use balanz.Ingestion.Claim.{save_job}
use balanz.Ingestion.Counters.{is_terminal, is_item_of, count_result}

abbrev pub is_manual_zip : SourceType → Bool
is_manual_zip SourceType.manual_zip = true
is_manual_zip _ = false

-- the number of a status in the order of the enumeration
abbrev pub rank : JobStatus → ℕ
rank JobStatus.awaiting_upload = 0
rank JobStatus.queued = 1
rank JobStatus.processing = 2
rank JobStatus.completed = 3
rank JobStatus.completed_with_issues = 4
rank JobStatus.failed_retryable = 5
rank JobStatus.failed_final = 6
rank JobStatus.cancel_requested = 7
rank JobStatus.cancelled = 8

-- the condition of the trigger; `OLD.status IS DISTINCT FROM NEW.status`
unfoldable pub fires : IngestionJob → IngestionJob → Bool
fires old new =
    is_manual_zip new.source_type
    && is_ended new.status
    && not (eqb (rank old.status) (rank new.status))

abbrev pub zip_error : IngestionJob → String
zip_error new =
    if is_cancelled new.status
    then "ZIP_CANCELLED"
    else elim new.last_error_code [ none ↦ "UNEXPECTED_WORKER_ERROR" | some code ↦ code ]

abbrev pub zip_terminalized : String → ℕ → IngestionItem → IngestionItem
zip_terminalized error_code now i = record i {
  technical_status = ItemStatus.terminal;
  product_result = some ItemResult.internal_error;
  error_code = some error_code;
  processed_at = some now;
  version = i.version + 1;
}

-- the first UPDATE
unfoldable pub close_zip_items : IngestionJob → ℕ → List IngestionItem → List IngestionItem
close_zip_items new now items =
    update_where (λ i. is_item_of new i && not (is_terminal i.technical_status))
      (zip_terminalized (zip_error new) now) items

-- the SELECT
unfoldable pub zip_counters : IngestionJob → List IngestionItem → Counters
zip_counters new items = record {
  total_items = count (is_item_of new) items;
  pending_items = 0;
  processing_items = 0;
  incorporated_items = count_result ItemResult.incorporated new items;
  duplicate_items = count_result ItemResult.duplicate new items;
  foreign_items = count_result ItemResult.foreign new items;
  invalid_items = count_result ItemResult.invalid new items;
  unsupported_items = count_result ItemResult.unsupported new items;
  internal_error_items = count_result ItemResult.internal_error new items;
}

-- The items after an UPDATE of a job from `old` to `new`.
unfoldable pub zip_items : ℕ → IngestionJob → IngestionJob → List IngestionItem → List IngestionItem
zip_items now old new items = if fires old new then close_zip_items new now items else items

-- The row that is written: `new`, with the counters if the trigger fires.
unfoldable pub zip_row : ℕ → IngestionJob → IngestionJob → List IngestionItem → IngestionJob
zip_row now old new items = record new {
  counters =
      if fires old new then zip_counters new (close_zip_items new now items) else new.counters;
  counters_reconciled_at = if fires old new then some now else new.counters_reconciled_at;
  current_stage = if fires old new then none else new.current_stage;
}

-- `UPDATE ingestion_jobs SET status = …` of a job, with the trigger.
unfoldable pub save_status : JobDb → ℕ → IngestionJob → IngestionJob → JobDb
save_status db now old new = record db {
  jobs = save_job (zip_row now old new db.items) db.jobs;
  items = zip_items now old new db.items;
}
