-- ===== src/Ingestion/Job.antt =====
-- modules/ingestion/entities: ingestion jobs and items, with the columns that the repository of
-- jobs reads or writes. A time is its number of milliseconds.
use balanz.Prelude.{
  ℕ, String, ◌+◌, Bool, true, false, not, ◌&&◌, ◌||◌, Option, List, leb, eqb, is_some, none, some,
}

pub data SourceType : Type 0 where
  manual_xml manual_zip sat_package : SourceType

pub data JobStatus : Type 0 where
  awaiting_upload queued processing completed completed_with_issues : JobStatus
  failed_retryable failed_final cancel_requested cancelled : JobStatus

pub data Stage : Type 0 where
  scanning extracting parsing persisting : Stage

pub data ItemStatus : Type 0 where
  pending processing terminal : ItemStatus

pub data ItemResult : Type 0 where
  incorporated duplicate foreign invalid unsupported internal_error : ItemResult

pub record Counters : Type 0 where
  pub total_items : ℕ
  pub pending_items : ℕ
  pub processing_items : ℕ
  pub incorporated_items : ℕ
  pub duplicate_items : ℕ
  pub foreign_items : ℕ
  pub invalid_items : ℕ
  pub unsupported_items : ℕ
  pub internal_error_items : ℕ

pub record IngestionJob : Type 0 where
  pub id : String
  pub organization_id : String
  pub client_account_id : String
  pub legal_entity_id : String
  pub source_type : SourceType
  pub correlation_id : String
  pub status : JobStatus
  pub current_stage : Option Stage
  pub counters : Counters
  pub counters_reconciled_at : Option ℕ
  pub attempt_count : ℕ
  pub automatic_retry_count : ℕ
  pub next_attempt_at : Option ℕ
  pub locked_by : Option String
  pub lease_expires_at : Option ℕ
  pub heartbeat_at : Option ℕ
  pub cancel_requested_at : Option ℕ
  pub started_at : Option ℕ
  pub completed_at : Option ℕ
  pub last_error_code : Option String
  pub last_error_detail : Option String
  pub version : ℕ

pub record IngestionItem : Type 0 where
  pub organization_id : String
  pub ingestion_job_id : String
  pub technical_status : ItemStatus
  pub product_result : Option ItemResult
  pub error_code : Option String
  pub safe_error_detail : Option String
  pub processed_at : Option ℕ
  pub version : ℕ

-- The audit events of the repository; the last three fields are the metadata.
pub record JobEvent : Type 0 where
  pub organization_id : String
  pub client_account_id : String
  pub legal_entity_id : String
  pub action : String
  pub object_id : String
  pub reason : String
  pub correlation_id : String
  pub status : Option JobStatus
  pub error_code : Option String
  pub automatic_retry_count : Option ℕ

pub record JobDb : Type 0 where
  pub jobs : List IngestionJob
  pub items : List IngestionItem
  pub events : List JobEvent

-- `status = …` and `status IN (…)`, by the conditions of the statements and of the checks.
abbrev pub is_processing : JobStatus → Bool
is_processing JobStatus.processing = true
is_processing _ = false

abbrev pub is_cancel_requested : JobStatus → Bool
is_cancel_requested JobStatus.cancel_requested = true
is_cancel_requested _ = false

abbrev pub is_failed_final : JobStatus → Bool
is_failed_final JobStatus.failed_final = true
is_failed_final _ = false

abbrev pub is_cancelled : JobStatus → Bool
is_cancelled JobStatus.cancelled = true
is_cancelled _ = false

abbrev pub is_ended : JobStatus → Bool
is_ended JobStatus.completed = true
is_ended JobStatus.completed_with_issues = true
is_ended JobStatus.failed_final = true
is_ended JobStatus.cancelled = true
is_ended _ = false

abbrev pub is_scheduled : JobStatus → Bool
is_scheduled JobStatus.queued = true
is_scheduled JobStatus.failed_retryable = true
is_scheduled _ = false

abbrev pub is_manual : SourceType → Bool
is_manual SourceType.sat_package = false
is_manual _ = true

abbrev pub is_none {ℓ} : {A : Type ℓ} → Option A → Bool
is_none o = not (is_some o)

abbrev pub same : Bool → Bool → Bool
same true b = b
same false b = not b

-- ck_ingestion_jobs_counters
abbrev pub counters_add_up : Counters → Bool
counters_add_up c =
    eqb
      (c.pending_items + c.processing_items + c.incorporated_items + c.duplicate_items
        + c.foreign_items + c.invalid_items + c.unsupported_items + c.internal_error_items)
      c.total_items

-- The checks of the table on a lease, a cancellation, a completion and a schedule:
-- ck_ingestion_jobs_lease_state, _unlocked_state, _cancel_state, _completion_state and
-- _retry_schedule.
abbrev pub state_checks : IngestionJob → Bool
state_checks j =
    (not (is_processing j.status)
      || is_some j.locked_by
        && is_some j.lease_expires_at
        && is_some j.heartbeat_at
        && is_some j.started_at)
    && (is_processing j.status
        || is_cancel_requested j.status
        || is_none j.locked_by && is_none j.lease_expires_at)
    && same (is_cancel_requested j.status || is_cancelled j.status) (is_some j.cancel_requested_at)
    && same (is_ended j.status) (is_some j.completed_at)
    && (not (is_scheduled j.status) || is_some j.next_attempt_at)

-- ck_ingestion_jobs_automatic_retry_count
abbrev pub retry_check : IngestionJob → Bool
retry_check j = leb j.automatic_retry_count 3 && leb j.automatic_retry_count j.attempt_count

-- ck_ingestion_items_terminal_state
abbrev pub terminal_check : IngestionItem → Bool
terminal_check i = elim i.technical_status [
  | ItemStatus.terminal ↦ is_some i.product_result && is_some i.processed_at
  | _ ↦ is_none i.product_result && is_none i.processed_at
]

-- ck_ingestion_items_error_state and ck_ingestion_items_success_error: without a result both hold,
-- the second because a comparison with NULL does not fail a check.
abbrev pub error_check : IngestionItem → Bool
error_check i = elim i.product_result [
  | none ↦ true
  | some ItemResult.incorporated ↦ is_none i.error_code && is_none i.safe_error_detail
  | some ItemResult.duplicate ↦ is_none i.error_code && is_none i.safe_error_detail
  | some _ ↦ is_some i.error_code
]

-- The checks of the table on the state of an item, its result, its error and its time.
abbrev pub item_check : IngestionItem → Bool
item_check i = terminal_check i && error_check i
