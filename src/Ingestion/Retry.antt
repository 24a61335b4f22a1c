-- ===== src/Ingestion/Retry.antt =====
-- What a worker does with a job that failed: failFinal, and scheduleRetry with its backoff
-- (modules/ingestion/services/ingestion-job.repository.ts). Each is a transaction: an exception
-- leaves the tables as they were.
pub mod Backoff
pub mod Delay
pub mod Outcome
use balanz.Prelude.{
  ℕ, zero, suc, String, ◌+◌, ◌*◌, ◌/◌, Bool, true, false, ◌&&◌, List, [], ◌∷◌, Option, none, some,
  leb, length, if◌then◌else◌,
}
use balanz.Http.{Result, ok, ◌>>=◌, ◌>>◌}
use balanz.Ingestion.Job.{IngestionJob, JobDb, JobEvent, JobStatus, is_manual}
use balanz.Ingestion.Policy.{Policy}
use balanz.Ingestion.Claim.{Claim, assert_lease_identity, assert_safe_error, held_job, with_event}
use balanz.Ingestion.ManualZip.{save_status}
use balanz.Ingestion.Counters.{terminalize_manual_items}
use balanz.Ingestion.Settlement.{in_process, job_event}

abbrev pub failure : String → Option String → ℕ → IngestionJob → IngestionJob
failure error_code safe_detail now j = record j {
  status = JobStatus.failed_final;
  next_attempt_at = none;
  locked_by = none;
  lease_expires_at = none;
  completed_at = some now;
  last_error_code = some error_code;
  last_error_detail = safe_detail;
  version = j.version + 1;
}

-- terminalizeManualItems, for a job of a manual source that has failed for good.
unfoldable pub close_manual :
    Bool → JobDb → ℕ → ℕ → IngestionJob → String → Option String → Result (ℕ × JobDb)
close_manual is_final db now later j error_code safe_detail =
    if is_final && is_manual j.source_type
    then terminalize_manual_items db now later j error_code safe_detail
    else ok (j.version, db)

-- failFinal; the statements on items and counters read the clock as `third` and `last`.
unfoldable pub fail_final :
    JobDb → ℕ → ℕ → ℕ → ℕ → Claim → String → Option String → Result (Bool × JobDb)
fail_final db now later third last claim error_code safe_detail = do
  assert_lease_identity claim
  assert_safe_error error_code safe_detail
  elim (held_job claim now in_process db.jobs) [
    | none ↦ ok (false, db)
    | some j ↦ do
      let j' = failure error_code safe_detail later j
      closed ← close_manual true (save_status db later j j') third last j' error_code safe_detail
      ok (
        true,
        with_event
            (job_event j "ingestion.job.failed_final" "Worker reported a terminal error." none
              (some error_code) none)
            closed.1,
      )
  ]

-- the element of an SQL array, which starts at 1
abbrev pub array_element : List ℕ → ℕ → Option ℕ
array_element [] i = none
array_element (x ∷ xs) zero = none
array_element (x ∷ xs) (suc zero) = some x
array_element (x ∷ xs) (suc (suc i)) = array_element xs (suc i)

abbrev pub least : ℕ → ℕ → ℕ
least a b = if leb a b then a else b

-- `base + floor(random() * (base * jitter / 100.0 + 1))`, where `random()` is `draw / range`; the
-- arithmetic is taken to be exact.
unfoldable pub delay_seconds : ℕ → ℕ → ℕ → ℕ → ℕ
delay_seconds base jitter draw range = base + draw * (base * jitter + 100) / (range * 100)

-- the delay of the next attempt, NULL outside the array
unfoldable pub backoff : Policy → ℕ → ℕ → ℕ → Option ℕ
backoff policy retries draw range =
    elim (array_element policy.backoff_seconds
      (least (retries + 1) (length policy.backoff_seconds))) [
        | none ↦ none
        | some base ↦ some (delay_seconds base policy.backoff_jitter_percent draw range)
      ]

abbrev pub exhausted : Policy → IngestionJob → Bool
exhausted policy j = leb policy.max_retries j.automatic_retry_count

abbrev pub after : ℕ → Option ℕ → Option ℕ
after now none = none
after now (some seconds) = some (now + seconds * 1000)

-- the columns that scheduleRetry sets
abbrev pub retry : Policy → ℕ → ℕ → String → Option String → ℕ → IngestionJob → IngestionJob
retry policy draw range error_code safe_detail now j = record j {
  status = if exhausted policy j then JobStatus.failed_final else JobStatus.failed_retryable;
  automatic_retry_count =
      if exhausted policy j then j.automatic_retry_count else j.automatic_retry_count + 1;
  next_attempt_at =
      if exhausted policy j
      then none
      else after now (backoff policy j.automatic_retry_count draw range);
  locked_by = none;
  lease_expires_at = none;
  completed_at = if exhausted policy j then some now else none;
  last_error_code = some error_code;
  last_error_detail = safe_detail;
  version = j.version + 1;
}

-- RetryScheduleResult
pub record RetrySchedule : Type 0 where
  pub status : JobStatus
  pub next_attempt_at : Option ℕ
  pub automatic_retry_count : ℕ
  pub version : ℕ

abbrev pub retry_event : Bool → IngestionJob → String → JobEvent
retry_event is_final j error_code =
    job_event j
      (if is_final then "ingestion.job.retry_exhausted" else "ingestion.job.retry_scheduled")
      (if is_final
        then "Worker exhausted the durable automatic retry budget."
        else "Worker scheduled durable automatic retry.")
      (some j.status) (some error_code) (some j.automatic_retry_count)

abbrev pub schedule_of : IngestionJob → ℕ → RetrySchedule
schedule_of j version = record {
  status = j.status;
  next_attempt_at = j.next_attempt_at;
  automatic_retry_count = j.automatic_retry_count;
  version = version;
}

unfoldable pub schedule_retry :
    Policy
    → ℕ
    → ℕ
    → JobDb
    → ℕ
    → ℕ
    → ℕ
    → ℕ
    → Claim
    → String
    → Option String
    → Result (Option RetrySchedule × JobDb)
schedule_retry policy draw range db now later third last claim error_code safe_detail = do
  assert_lease_identity claim
  assert_safe_error error_code safe_detail
  elim (held_job claim now in_process db.jobs) [
    | none ↦ ok (none, db)
    | some j ↦ do
      let j' = retry policy draw range error_code safe_detail later j
      closed ←
          close_manual (exhausted policy j) (save_status db later j j') third last j' error_code
            safe_detail
      ok (
        some (schedule_of j' closed.0),
        with_event (retry_event (exhausted policy j) j' error_code) closed.1,
      )
  ]
