-- ===== src/Ingestion/Retry/Outcome.antt =====
-- What failFinal and scheduleRetry do for a worker that holds the lease of a job in process.
use balanz.Prelude.{ℕ, String, ◌+◌, ◌*◌, ◌<◌, ◌≡◌, refl, arith, true, false, Option, none, some}
use balanz.Http.{ok}
use balanz.Ingestion.Job.{IngestionJob, JobDb, JobStatus, is_processing}
use balanz.Ingestion.Policy.{Policy, is_locked}
use balanz.Ingestion.Claim.{
  Claim, assert_lease_identity, assert_safe_error, find_job, save_job, holds_lease, with_jobs,
  with_event,
}
use balanz.Ingestion.Claim.Laws.{held_job-intro, find-save_claimed}
use balanz.Ingestion.ManualZip.{fires, save_status}
use balanz.Ingestion.ManualZip.Laws.{zip_row-quiet, zip_items-quiet, fires-open}
use balanz.Ingestion.Settlement.{in_process}
use balanz.Ingestion.Retry.{
  schedule_retry, close_manual, retry, exhausted, delay_seconds, schedule_of, retry_event,
}
use balanz.Ingestion.Retry.Backoff.{base_delay, backoff-base_delay, locked-backoff_seconds}

-- A claim and an error that pass their assertions, by a worker that holds the lease of the job,
-- which is in process.
pub record Working (db : JobDb) (now : ℕ) (claim : Claim) (code : String) (detail : Option String)
    (j : IngestionJob) : Type 0 where
  pub valid : assert_lease_identity claim ≡ ok tt
  pub safe : assert_safe_error code detail ≡ ok tt
  pub found : find_job claim.job_id claim.organization_id db.jobs ≡ some j
  pub held : holds_lease claim now j ≡ true
  pub processing : is_processing j.status ≡ true

module _ (policy : Policy) (draw range : ℕ) (db : JobDb) (now later third last : ℕ) (claim : Claim)
    (code : String) (detail : Option String) (j : IngestionJob) where
  -- With retries left, a worker that holds the lease of a job in process schedules it again: the
  -- result and the row are those of the next attempt, 10, 30 or 120 seconds later with the
  -- jitter, one retry is counted, and the lease is given up.
  pub schedule_retry_waits :
      is_locked policy ≡ true
      → Working db now claim code detail j
      → j.automatic_retry_count < 3
      → let next =
          later
          + delay_seconds
              (base_delay j.automatic_retry_count)
              policy.backoff_jitter_percent
              draw
              range
            * 1000 in
        (db' : JobDb) × (k : IngestionJob) × (schedule_retry policy draw range db now later third
            last claim code detail
          ≡ ok (some (schedule_of k k.version), db'))
        × (find_job claim.job_id claim.organization_id db'.jobs ≡ some k)
        × (k.status ≡ JobStatus.failed_retryable)
        × (k.next_attempt_at ≡ some next)
        × (k.automatic_retry_count ≡ j.automatic_retry_count + 1)
        × (k.locked_by ≡ none)
        × (db'.items ≡ db.items)
  unfolding schedule_retry close_manual save_status
  schedule_retry_waits locked w few =
      let own = held_job-intro claim now in_process db.jobs j w.found w.held w.processing in
      let k = retry policy draw range code detail later j in
      let granted : exhausted policy j ≡ false =
        ground (arith, locked-backoff_seconds policy locked) in
      let delay = backoff-base_delay policy j.automatic_retry_count draw range locked in
      let saved =
        find-save_claimed claim.job_id claim.organization_id j k db.jobs w.found refl refl in
      let quiet : fires j k ≡ false = fires-open j k (ground arith) in
      let same_row = zip_row-quiet later j k db.items quiet in
      let same_items = zip_items-quiet later j k db.items quiet in
      (
        with_event (retry_event (exhausted policy j) k code) (with_jobs (save_job k db.jobs) db),
        k,
        ground (arith, own, granted, same_row, same_items, w.valid, w.safe),
        saved,
        ground arith,
        ground arith,
        ground arith,
        refl,
        refl,
      )
