-- ===== src/Ingestion/Tests.antt =====
-- The jobs of one organization at work, and the results at them.
use balanz.Prelude.{
  String, List, map, ℕ, ◌+◌, ◌*◌, ◌≤◌, ◌<◌, ◌≡◌, refl, arith, false, [], ◌∷◌, Option, none, some,
}
use balanz.Http.{ok}
use balanz.Ingestion.Job.{IngestionJob, JobDb, JobStatus}
use balanz.Ingestion.Policy.{
  matches_worker_id, canonical_fiscal_error_codes, contains_unsafe_control, is_safe_detail,
}
use balanz.Ingestion.Claim.{
  find_job, holds_lease, held_job, assert_lease_identity, assert_safe_error, save_job,
}
use balanz.Ingestion.Counters.{close_items, aggregate, terminalize_manual_items}
use balanz.Ingestion.ManualZip.{
  save_status, zip_row, zip_items, fires, close_zip_items, zip_counters,
}
use balanz.Ingestion.Settlement.{heartbeat, complete}
use balanz.Ingestion.Retry.{backoff, delay_seconds, close_manual, schedule_retry, schedule_of}
use balanz.Ingestion.Retry.Backoff.{base_delay}
use balanz.Ingestion.Retry.Delay.{delay_seconds_bounds}
use balanz.Ingestion.Retry.Outcome.{Working, schedule_retry_waits}
use balanz.Ingestion.Calls.{Request, Call, run_request, run_call, run_calls, is_held}
use balanz.Ingestion.Calls.Invariant.{Consistent, run_calls-Consistent}
use balanz.Ingestion.Calls.Fence.{run_call-fenced, run_calls-unleased}
use balanz.Ingestion.Calls.Statuses.{Follows, run_calls-Follows}
use balanz.Ingestion.Sample.{policy, claim, job, queued_job, tables, at_thousand, calls}

tables-Consistent : Consistent (tables 0)
tables-Consistent = record { jobs = refl; items = refl }

found-job : (retries : ℕ) → find_job "job-1" "org-1" (tables retries).jobs ≡ some (job retries)
unfolding find_job
found-job retries = refl

working : (retries : ℕ) → Working (tables retries) 1000 claim "ZIP_CORRUPT" none (job retries)
unfolding assert_lease_identity assert_safe_error matches_worker_id canonical_fiscal_error_codes
    is_safe_detail holds_lease
working retries = record {
  valid = refl;
  safe = refl;
  found = found-job retries;
  held = refl;
  processing = refl;
}

run_calls-Consistent_example : Consistent (run_calls policy (tables 0) calls)
run_calls-Consistent_example = run_calls-Consistent policy (tables 0) calls refl tables-Consistent

delay_seconds_bounds_example :
    (120 ≤ delay_seconds 120 20 1 2) × (delay_seconds 120 20 1 2 * 100 < 120 * 100 + 120 * 20 + 100)
delay_seconds_bounds_example = delay_seconds_bounds 120 20 1 2 (omega arith)

queued-found : find_job "job-2" "org-1" (tables 0).jobs ≡ some queued_job
unfolding find_job
queued-found = refl

run_calls-unleased_example :
    find_job "job-2" "org-1" (run_calls policy (tables 0) calls).jobs ≡ some queued_job
run_calls-unleased_example =
    run_calls-unleased policy (tables 0) calls "job-2" "org-1" queued_job queued-found refl

run_calls-Follows_example :
    (k : IngestionJob) × (find_job "job-1" "org-1" (run_calls policy (tables 0) calls).jobs
      ≡ some k)
    × Follows JobStatus.processing k.status
run_calls-Follows_example =
    run_calls-Follows policy (tables 0) calls "job-1" "org-1" (job 0) (found-job 0)

-- Another worker's call, with a token of its own.
abbrev stolen : Call
stolen = record {
  claim = record claim { lease_token = "77aa" };
  moment = at_thousand;
  request = Request.complete JobStatus.completed;
}

stolen_is_held : is_held stolen.claim 1000 (tables 0) ≡ false
unfolding is_held find_job holds_lease
stolen_is_held = refl

run_call-fenced_example : run_call policy (tables 0) stolen ≡ tables 0
run_call-fenced_example = run_call-fenced policy (tables 0) stolen stolen_is_held

schedule_retry_waits_example :
    (db' : JobDb) × (k : IngestionJob) × (schedule_retry policy 1 2
        (tables 0)
        1000
        1001
        1002
        1003
        claim
        "ZIP_CORRUPT"
        none
      ≡ ok (some (schedule_of k k.version), db'))
    × (find_job "job-1" "org-1" db'.jobs ≡ some k)
    × (k.status ≡ JobStatus.failed_retryable)
    × (k.next_attempt_at ≡ some (1001 + delay_seconds (base_delay 0) 20 1 2 * 1000))
    × (k.automatic_retry_count ≡ 1)
    × (k.locked_by ≡ none)
    × (db'.items ≡ (tables 0).items)
schedule_retry_waits_example =
    schedule_retry_waits policy 1 2 (tables 0) 1000 1001 1002 1003 claim "ZIP_CORRUPT" none (job 0)
      refl (working 0) (omega arith)

-- What the run below computes with.
runs : Unit {0}
unfolding run_calls run_call run_request heartbeat complete schedule_retry close_manual held_job
    holds_lease find_job save_job backoff delay_seconds assert_lease_identity assert_safe_error
    matches_worker_id canonical_fiscal_error_codes is_safe_detail contains_unsafe_control
    terminalize_manual_items close_items aggregate save_status zip_row zip_items fires
    close_zip_items zip_counters
runs = tt

-- The heartbeat renews, the retry gives the job back, and the completion finds no lease.
abbrev status_in : JobDb → Option JobStatus
status_in db = elim db.jobs [ [] ↦ none | j ∷ _ ↦ some j.status ]

status_in-calls : status_in (run_calls policy (tables 0) calls) ≡ some JobStatus.failed_retryable
unfolding runs
status_in-calls = refl

-- The completion of a manual ZIP job ends its two open items with an internal error, by the trigger.
abbrev completed : JobDb
completed = run_call policy (tables 0) (record {
  claim = claim;
  moment = at_thousand;
  request = Request.complete JobStatus.completed_with_issues;
})

abbrev counts : JobDb → Option (ℕ × ℕ × ℕ)
counts db = elim db.jobs [
  | [] ↦ none
  | j ∷ _ ↦ some (j.counters.total_items, j.counters.pending_items, j.counters.internal_error_items)
]

abbrev error_codes : JobDb → List (Option String)
error_codes db = map (λ i. i.error_code) db.items

counts-completed : counts completed ≡ some (3, 0, 2)
unfolding runs
counts-completed = refl

error_codes-completed :
    error_codes completed
    ≡ none ∷ some "UNEXPECTED_WORKER_ERROR" ∷ some "UNEXPECTED_WORKER_ERROR" ∷ []
unfolding runs
error_codes-completed = refl
