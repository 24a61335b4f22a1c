-- ===== src/Ingestion/Calls/Step.antt =====
-- What one call does to the job that its claim leases, as a relation on the row before and after.
pub mod Effects
use balanz.Prelude.{ℕ, String, ◌≡◌, true, false, Option, some, List, ◌⊎◌}
use balanz.Ingestion.Job.{IngestionJob, IngestionItem, JobDb, JobStatus, is_processing, is_manual}
use balanz.Ingestion.Policy.{Policy}
use balanz.Ingestion.Claim.{Claim, find_job, save_job, holds_lease}
use balanz.Ingestion.Counters.{close_items, aggregate, reconciled}
use balanz.Ingestion.ManualZip.{zip_items, zip_row}
use balanz.Ingestion.Settlement.{renewal, completes, completion, release, is_leased, in_process}
use balanz.Ingestion.Retry.{failure, retry, exhausted}
use balanz.Ingestion.Calls.{Moment}

-- a failed row with its items closed and counted, which was `j` before
abbrev pub closed :
    List IngestionItem
    → Moment
    → String
    → Option String
    → IngestionJob
    → IngestionJob
    → IngestionJob
closed items m code detail j k =
    let left = zip_items m.later j k items in
    reconciled (aggregate k (close_items k code detail m.third left)) m.last k

abbrev pub retried : Policy → Moment → String → Option String → IngestionJob → IngestionJob
retried policy m code detail j = retry policy m.draw m.range code detail m.later j

pub data Step (policy : Policy) (m : Moment) (items : List IngestionItem)
    : IngestionJob → IngestionJob → Type 0 where
  renews :
      {j : IngestionJob}
      → is_processing j.status ≡ true
      → Step policy m items j (renewal policy m.later j)
  completes_as :
      {j : IngestionJob} (status : JobStatus)
      → completes status j ≡ true
      → Step policy m items j (zip_row m.later j (completion status m.later j) items)
  fails :
      {j : IngestionJob} (code : String) (detail : Option String)
      → in_process j ≡ true
      → is_manual j.source_type ≡ false
      → Step policy m items j (zip_row m.later j (failure code detail m.later j) items)
  fails_closed :
      {j : IngestionJob} (code : String) (detail : Option String)
      → in_process j ≡ true
      → is_manual j.source_type ≡ true
      → Step policy m items j (closed items m code detail j (failure code detail m.later j))
  retries :
      {j : IngestionJob} (code : String) (detail : Option String)
      → in_process j ≡ true
      → Step policy m items j (zip_row m.later j (retried policy m code detail j) items)
  retries_closed :
      {j : IngestionJob} (code : String) (detail : Option String)
      → in_process j ≡ true
      → exhausted policy j ≡ true
      → Step policy m items j (closed items m code detail j (retried policy m code detail j))
  releases :
      {j : IngestionJob}
      → is_leased j ≡ true
      → Step policy m items j (zip_row m.later j (release m.later j) items)

-- A call that changes the tables: the job that its claim leases makes a step, and the items stay
-- or those of a job are closed, by the trigger or by the call.
pub record Effect (policy : Policy) (db : JobDb) (claim : Claim) (m : Moment) (db' : JobDb)
    : Type 0 where
  pub before : IngestionJob
  pub after : IngestionJob
  pub found : find_job claim.job_id claim.organization_id db.jobs ≡ some before
  pub held : holds_lease claim m.now before ≡ true
  pub step : Step policy m db.items before after
  pub same_id : after.id ≡ before.id
  pub same_organization : after.organization_id ≡ before.organization_id
  pub jobs : db'.jobs ≡ save_job after db.jobs
  pub items :
      (db'.items ≡ db.items)
      ⊎ ((k : IngestionJob) × (db'.items ≡ zip_items m.later before k db.items))
      ⊎ ((k : IngestionJob) × (code : String) × (detail : Option String) × (db'.items
            ≡ close_items k code detail m.third (zip_items m.later before k db.items)))
