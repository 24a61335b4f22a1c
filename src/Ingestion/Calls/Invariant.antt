-- ===== src/Ingestion/Calls/Invariant.antt =====
-- The checks of the tables, which every call keeps.
use balanz.Prelude.{
  ℕ, String, Option, ◌≡◌, sym, subst, arith, Bool, true, not, ◌&&◌, ◌||◌, List, [], ◌∷◌, all, ltb,
  inl, inr,
}
use balanz.Ingestion.Job.{
  IngestionJob, IngestionItem, JobDb, state_checks, retry_check, counters_add_up, item_check,
  is_processing,
}
use balanz.Ingestion.Policy.{Policy, is_locked}
use balanz.Ingestion.Claim.{Claim}
use balanz.Ingestion.Claim.Laws.{all-save_job, all-find_job}
use balanz.Ingestion.Counters.{close_items}
use balanz.Ingestion.Counters.Laws.{aggregate_adds_up, all-close_items}
use balanz.Ingestion.Retry.Backoff.{backoff-base_delay, locked-backoff_seconds}
use balanz.Ingestion.ManualZip.{zip_items, zip_row}
use balanz.Ingestion.ManualZip.Laws.{all-zip_items, zip_row_adds_up}
use balanz.Ingestion.Settlement.{completion, release}
use balanz.Ingestion.Retry.{failure}
use balanz.Ingestion.Calls.{Moment, Call, run_call, run_calls}
use balanz.Ingestion.Calls.Step.{Step, Effect, retried, closed}
use balanz.Ingestion.Calls.Step.Effects.{run_request-effect}

-- The checks of a job's row, and that a job in process has attempts left to count as a retry.
abbrev pub job_check : IngestionJob → Bool
job_check j =
    state_checks j
    && retry_check j
    && counters_add_up j.counters
    && (not (is_processing j.status) || ltb j.automatic_retry_count j.attempt_count)

pub record Consistent (db : JobDb) : Type 0 where
  pub jobs : all job_check db.jobs ≡ true
  pub items : all item_check db.items ≡ true

-- The trigger keeps the checks of the row that is written.
zip_row-job_check :
    (now : ℕ) (old new : IngestionJob) (items : List IngestionItem)
    → all item_check items ≡ true
    → job_check new ≡ true
    → job_check (zip_row now old new items) ≡ true
unfolding zip_row
zip_row-job_check now old new items sound h =
    let counted = zip_row_adds_up now old new items sound (ground arith) in ground (arith, counted)

-- The counters of a failed job with its items closed add up.
closed_adds_up :
    (m : Moment) (old k : IngestionJob) (code : String) (detail : Option String)
    (items : List IngestionItem)
    → all item_check items ≡ true
    → counters_add_up (closed items m code detail old k).counters ≡ true
closed_adds_up m old k code detail items sound =
    let left = zip_items m.later old k items in
    aggregate_adds_up k (close_items k code detail m.third left)
      (all-close_items k code detail m.third left (all-zip_items m.later old k items sound))

-- A step keeps the checks of its job.
Step-job_check :
    (policy : Policy) (m : Moment) (items : List IngestionItem) {j k : IngestionJob}
    → is_locked policy ≡ true
    → all item_check items ≡ true
    → Step policy m items j k
    → job_check j ≡ true
    → job_check k ≡ true
Step-job_check policy m items {j} locked sound (Step.renews processing) h = ground arith
Step-job_check policy m items {j} locked sound (Step.completes_as status from) h =
    zip_row-job_check m.later j (completion status m.later j) items sound (ground arith)
Step-job_check policy m items {j} locked sound (Step.fails code detail from fetched) h =
    zip_row-job_check m.later j (failure code detail m.later j) items sound (ground arith)
Step-job_check policy m items {j} locked sound (Step.fails_closed code detail from manual) h =
    ground (arith, closed_adds_up m j (failure code detail m.later j) code detail items sound)
Step-job_check policy m items {j} locked sound (Step.retries code detail from) h =
    zip_row-job_check m.later j (retried policy m code detail j) items sound (
      ground (
        arith,
        locked-backoff_seconds policy locked,
        backoff-base_delay policy j.automatic_retry_count m.draw m.range locked,
      ))
Step-job_check policy m items {j} locked sound (Step.retries_closed code detail from final) h =
    ground (arith, closed_adds_up m j (retried policy m code detail j) code detail items sound)
Step-job_check policy m items {j} locked sound (Step.releases from) h =
    zip_row-job_check m.later j (release m.later j) items sound (ground arith)

-- An effect keeps the checks of the tables.
Effect-Consistent :
    (policy : Policy) (db db' : JobDb) (claim : Claim) (m : Moment)
    → is_locked policy ≡ true
    → Effect policy db claim m db'
    → Consistent db
    → Consistent db'
Effect-Consistent policy db db' claim m locked e h = record {
  jobs =
      subst (λ jobs. all job_check jobs ≡ true) (sym e.jobs)
        (all-save_job job_check e.after db.jobs h.jobs (
          Step-job_check policy m db.items locked h.items e.step
            (all-find_job job_check claim.job_id claim.organization_id db.jobs h.jobs e.found)));
  items = elim e.items [
    | inl same_items ↦ subst (λ items. all item_check items ≡ true) (sym same_items) h.items
    | inr (inl (k, zipped)) ↦
        subst (λ items. all item_check items ≡ true) (sym zipped)
          (all-zip_items m.later e.before k db.items h.items)
    | inr (inr (k, code, detail, closing)) ↦
        let left = zip_items m.later e.before k db.items in
        subst (λ items. all item_check items ≡ true) (sym closing)
          (all-close_items k code detail m.third left
            (all-zip_items m.later e.before k db.items h.items))
  ];
}

run_call-Consistent :
    (policy : Policy) (db : JobDb) (call : Call)
    → is_locked policy ≡ true
    → Consistent db
    → Consistent (run_call policy db call)
unfolding run_call
run_call-Consistent policy db call locked h =
    elim (run_request-effect policy db call.claim call.moment call.request) [
      | inl unchanged ↦ subst Consistent (sym unchanged) h
      | inr e ↦ Effect-Consistent policy db _ call.claim call.moment locked e h
    ]

-- Under the locked policy any calls of the workers, in any order and at any times, keep the checks
-- of the tables: those on leases, cancellations, completions, schedules, retries and counters of
-- the jobs, and those that tie the state of an item to its result, its time and its error.
pub run_calls-Consistent :
    (policy : Policy) (db : JobDb) (calls : List Call)
    → is_locked policy ≡ true
    → Consistent db
    → Consistent (run_calls policy db calls)
unfolding run_calls
run_calls-Consistent policy db [] locked h = h
run_calls-Consistent policy db (call ∷ calls) locked h =
    run_calls-Consistent policy (run_call policy db call) calls locked
      (run_call-Consistent policy db call locked h)
