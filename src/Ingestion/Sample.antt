-- ===== src/Ingestion/Sample.antt =====
-- A job at work, a queued one, and calls on them.
use balanz.Prelude.{ℕ, ◌+◌, List, [], ◌∷◌, Option, none, some}
use balanz.Ingestion.Job.{
  IngestionJob, IngestionItem, Counters, JobDb, JobStatus, SourceType, ItemStatus, ItemResult,
}
use balanz.Ingestion.Policy.{Policy}
use balanz.Ingestion.Claim.{Claim}
use balanz.Ingestion.Calls.{Moment, Request, Call}

abbrev pub policy : Policy
policy = record {
  lease_seconds = 90;
  max_attempts = 4;
  max_retries = 3;
  backoff_seconds = 10 ∷ 30 ∷ 120 ∷ [];
  backoff_jitter_percent = 20;
  active_jobs_per_tenant = 4;
  orphan_grace_minutes = 60;
  duplicate_bytes_hours = 24;
  invalid_object_days = 7;
}

abbrev pub claim : Claim
claim = record {
  job_id = "job-1";
  organization_id = "org-1";
  worker_id = "worker-1";
  lease_token = "3f1c";
}

abbrev pub counters : Counters
counters = record {
  total_items = 3;
  pending_items = 1;
  processing_items = 1;
  incorporated_items = 1;
  duplicate_items = 0;
  foreign_items = 0;
  invalid_items = 0;
  unsupported_items = 0;
  internal_error_items = 0;
}

-- a job that the worker `claim` leases, with `retries` automatic retries behind it
abbrev pub job : ℕ → IngestionJob
job retries = record {
  id = "job-1";
  organization_id = "org-1";
  client_account_id = "account-1";
  legal_entity_id = "entity-1";
  source_type = SourceType.manual_zip;
  correlation_id = "correlation-1";
  status = JobStatus.processing;
  current_stage = none;
  counters = counters;
  counters_reconciled_at = none;
  attempt_count = retries + 1;
  automatic_retry_count = retries;
  next_attempt_at = none;
  locked_by = some "3f1c";
  lease_expires_at = some 90000;
  heartbeat_at = some 0;
  cancel_requested_at = none;
  started_at = some 0;
  completed_at = none;
  last_error_code = none;
  last_error_detail = none;
  version = 2;
}

abbrev pub queued_job : IngestionJob
queued_job = record (job 0) {
  id = "job-2";
  status = JobStatus.queued;
  attempt_count = 0;
  next_attempt_at = some 500;
  locked_by = none;
  lease_expires_at = none;
  started_at = none;
}

abbrev pub item : ItemStatus → Option ItemResult → Option ℕ → IngestionItem
item status result at = record {
  organization_id = "org-1";
  ingestion_job_id = "job-1";
  technical_status = status;
  product_result = result;
  error_code = none;
  safe_error_detail = none;
  processed_at = at;
  version = 1;
}

abbrev pub tables : ℕ → JobDb
tables retries = record {
  jobs = job retries ∷ queued_job ∷ [];
  items =
      item ItemStatus.terminal (some ItemResult.incorporated) (some 5)
      ∷ item ItemStatus.processing none none
      ∷ item ItemStatus.pending none none
      ∷ [];
  events = [];
}

abbrev pub at_thousand : Moment
at_thousand = record { now = 1000; later = 1001; third = 1002; last = 1003; draw = 1; range = 2 }

abbrev pub calls : List Call
calls =
    record { claim = claim; moment = at_thousand; request = Request.heartbeat }
    ∷ record {
      claim = claim;
      moment = at_thousand;
      request = Request.schedule_retry "ZIP_CORRUPT" none;
    }
    ∷ record { claim = claim; moment = at_thousand; request = Request.complete JobStatus.completed }
    ∷ []
