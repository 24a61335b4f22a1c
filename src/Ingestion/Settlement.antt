-- ===== src/Ingestion/Settlement.antt =====
-- What a worker does with the job that it leases: heartbeat, complete, failFinal, scheduleRetry and
-- releaseForShutdown (modules/ingestion/services/ingestion-job.repository.ts). Each is a
-- transaction: an exception leaves the tables as they were.
use balanz.Prelude.{
  ℕ, String, ◌+◌, ◌*◌, Bool, true, false, not, ◌||◌, Option, none, some, if◌then◌else◌,
}
use balanz.Http.{Result, ok, plain_error, ◌>>◌, throw_if}
use balanz.Ingestion.Job.{
  IngestionJob, JobDb, JobEvent, JobStatus, is_processing, is_cancel_requested, is_cancelled,
}
use balanz.Ingestion.Policy.{Policy}
use balanz.Ingestion.ManualZip.{save_status}
use balanz.Ingestion.Claim.{Claim, assert_lease_identity, held_job, save_job, with_jobs, with_event}

pub data HeartbeatResult : Type 0 where
  renewed cancel_requested lost : HeartbeatResult

-- `status IN ('processing','cancel_requested')`
abbrev pub is_leased : IngestionJob → Bool
is_leased j = is_processing j.status || is_cancel_requested j.status

abbrev pub in_process : IngestionJob → Bool
in_process j = is_processing j.status

abbrev pub renewal : Policy → ℕ → IngestionJob → IngestionJob
renewal policy now j = record j {
  heartbeat_at = some now;
  lease_expires_at = some (now + policy.lease_seconds * 1000);
  version = j.version + 1;
}

unfoldable pub heartbeat : Policy → JobDb → ℕ → ℕ → Claim → Result (HeartbeatResult × JobDb)
heartbeat policy db now later claim = do
  assert_lease_identity claim
  ok (elim (held_job claim now is_leased db.jobs) [
    | none ↦ (lost, db)
    | some j ↦
        if is_cancel_requested j.status
        then (cancel_requested, db)
        else (renewed, with_jobs (save_job (renewal policy later j) db.jobs) db)
  ])

-- the event that a statement records of a job
abbrev pub job_event :
    IngestionJob → String → String → Option JobStatus → Option String → Option ℕ → JobEvent
job_event j action reason status error_code automatic_retry_count = record {
  organization_id = j.organization_id;
  client_account_id = j.client_account_id;
  legal_entity_id = j.legal_entity_id;
  action = action;
  object_id = j.id;
  reason = reason;
  correlation_id = j.correlation_id;
  status = status;
  error_code = error_code;
  automatic_retry_count = automatic_retry_count;
}

-- CompletionStatus
abbrev pub is_completion : JobStatus → Bool
is_completion JobStatus.completed = true
is_completion JobStatus.completed_with_issues = true
is_completion JobStatus.cancelled = true
is_completion _ = false

-- the statuses from which `complete` goes to `status`
abbrev pub completes : JobStatus → IngestionJob → Bool
completes JobStatus.completed j = is_processing j.status
completes JobStatus.completed_with_issues j = is_processing j.status
completes JobStatus.cancelled j = is_cancel_requested j.status
completes _ j = false

abbrev pub completion : JobStatus → ℕ → IngestionJob → IngestionJob
completion status now j = record j {
  status = status;
  current_stage = none;
  next_attempt_at = none;
  locked_by = none;
  lease_expires_at = none;
  completed_at = some now;
  last_error_code = if is_cancelled status then j.last_error_code else none;
  last_error_detail = if is_cancelled status then j.last_error_detail else none;
  version = j.version + 1;
}

unfoldable pub complete : JobDb → ℕ → ℕ → Claim → JobStatus → Result (Bool × JobDb)
complete db now later claim status = do
  assert_lease_identity claim
  throw_if (not (is_completion status)) (plain_error "Invalid terminal ingestion job status")
  ok (elim (held_job claim now (completes status) db.jobs) [
    | none ↦ (false, db)
    | some j ↦ (
      true,
      with_event
          (job_event j "ingestion.job.completed" "Worker completed durable job." (some status) none
            none)
          (save_status db later j (completion status later j)),
    )
  ])

abbrev pub release : ℕ → IngestionJob → IngestionJob
release now j = record j {
  status = if is_cancel_requested j.status then JobStatus.cancelled else JobStatus.queued;
  next_attempt_at = if is_cancel_requested j.status then none else some now;
  locked_by = none;
  lease_expires_at = none;
  current_stage = none;
  completed_at = if is_cancel_requested j.status then some now else none;
  version = j.version + 1;
}

unfoldable pub release_for_shutdown : JobDb → ℕ → ℕ → Claim → Result (Bool × JobDb)
release_for_shutdown db now later claim = do
  assert_lease_identity claim
  ok (elim (held_job claim now is_leased db.jobs) [
    | none ↦ (false, db)
    | some j ↦
        let j' = release later j in
        (
          true,
          with_event
              (job_event j "ingestion.job.shutdown_released"
                "Worker released lease during shutdown." (some j'.status) none none)
              (save_status db later j j'),
        )
  ])
