-- ===== src/Ingestion/Counters.antt =====
-- terminalizeManualItems (modules/ingestion/services/ingestion-job.repository.ts): the open items
-- of a failed job end with an internal error, and the counters of the job are counted again.
pub mod Laws
use balanz.Prelude.{
  ℕ, String, ◌+◌, Bool, true, false, ◌&&◌, ◌||◌, List, Option, none, some, count, update_where,
  if◌then◌else◌, ◌==◌,
}
use balanz.Http.{Result, ok, err, plain_error}
use balanz.Ingestion.Job.{
  IngestionJob, IngestionItem, Counters, ItemStatus, ItemResult, JobDb, is_failed_final, is_manual,
}
use balanz.Ingestion.Claim.{find_job, save_job}

abbrev pub is_pending : ItemStatus → Bool
is_pending ItemStatus.pending = true
is_pending _ = false

abbrev pub is_in_process : ItemStatus → Bool
is_in_process ItemStatus.processing = true
is_in_process _ = false

abbrev pub is_terminal : ItemStatus → Bool
is_terminal ItemStatus.terminal = true
is_terminal _ = false

-- `product_result = …`
abbrev pub has_result : ItemResult → Option ItemResult → Bool
has_result ItemResult.incorporated (some ItemResult.incorporated) = true
has_result ItemResult.duplicate (some ItemResult.duplicate) = true
has_result ItemResult.foreign (some ItemResult.foreign) = true
has_result ItemResult.invalid (some ItemResult.invalid) = true
has_result ItemResult.unsupported (some ItemResult.unsupported) = true
has_result ItemResult.internal_error (some ItemResult.internal_error) = true
has_result _ _ = false

abbrev pub is_item_of : IngestionJob → IngestionItem → Bool
is_item_of job i = i.organization_id == job.organization_id && i.ingestion_job_id == job.id

-- the items of the first UPDATE
abbrev pub is_open_item : IngestionJob → IngestionItem → Bool
is_open_item job i =
    is_item_of job i && (is_pending i.technical_status || is_in_process i.technical_status)

abbrev pub terminalized : String → Option String → ℕ → IngestionItem → IngestionItem
terminalized error_code safe_detail now i = record i {
  technical_status = ItemStatus.terminal;
  product_result = some ItemResult.internal_error;
  error_code = some error_code;
  safe_error_detail = safe_detail;
  processed_at = some now;
  version = i.version + 1;
}

-- the first UPDATE
unfoldable pub close_items :
    IngestionJob → String → Option String → ℕ → List IngestionItem → List IngestionItem
close_items job error_code safe_detail now items =
    update_where (is_open_item job) (terminalized error_code safe_detail now) items

abbrev pub count_result : ItemResult → IngestionJob → List IngestionItem → ℕ
count_result result job items =
    count (λ i. is_item_of job i && has_result result i.product_result) items

-- the aggregate
unfoldable pub aggregate : IngestionJob → List IngestionItem → Counters
aggregate job items = record {
  total_items = count (is_item_of job) items;
  pending_items = count (λ i. is_item_of job i && is_pending i.technical_status) items;
  processing_items = count (λ i. is_item_of job i && is_in_process i.technical_status) items;
  incorporated_items = count_result ItemResult.incorporated job items;
  duplicate_items = count_result ItemResult.duplicate job items;
  foreign_items = count_result ItemResult.foreign job items;
  invalid_items = count_result ItemResult.invalid job items;
  unsupported_items = count_result ItemResult.unsupported job items;
  internal_error_items = count_result ItemResult.internal_error job items;
}

-- the columns that the second UPDATE sets
abbrev pub reconciled : Counters → ℕ → IngestionJob → IngestionJob
reconciled counters now j = record j {
  current_stage = none;
  counters = counters;
  counters_reconciled_at = some now;
  version = j.version + 1;
}

-- terminalizeManualItems, with the new version of the job's row.
unfoldable pub terminalize_manual_items :
    JobDb → ℕ → ℕ → IngestionJob → String → Option String → Result (ℕ × JobDb)
terminalize_manual_items db now later job error_code safe_detail =
    let items = close_items job error_code safe_detail now db.items in
    elim (find_job job.id job.organization_id db.jobs) [
      | none ↦ err (plain_error "Manual ingestion terminal counter reconciliation failed")
      | some j ↦
          if is_manual j.source_type && is_failed_final j.status
          then (let j' = reconciled (aggregate job items) later j in
              ok (j'.version, record db { jobs = save_job j' db.jobs; items = items }))
          else err (plain_error "Manual ingestion terminal counter reconciliation failed")
    ]
