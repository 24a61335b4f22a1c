-- ===== src/Ingestion/Calls/Step/Effects.antt =====
-- Each call leaves the tables alone or makes a step of the job that its claim leases.
use balanz.Prelude.{
  String, ◌≡◌, refl, arith, true, ◌⊎◌, inl, inr, ◌&&◌, Option, some, Option-cases, and-split,
  Bool-cases,
}
use balanz.Http.{ok, Result-cases}
use balanz.Ingestion.Job.{
  IngestionJob, JobDb, JobStatus, is_cancel_requested, is_manual, is_failed_final,
}
use balanz.Ingestion.Policy.{Policy}
use balanz.Ingestion.Claim.{
  Claim, held_job, assert_lease_identity, assert_safe_error, find_job, save_job,
}
use balanz.Ingestion.Claim.Laws.{held_job-some, find_job_self}
use balanz.Ingestion.Counters.{close_items, terminalize_manual_items}
use balanz.Ingestion.ManualZip.{zip_items, zip_row, save_status}
use balanz.Ingestion.ManualZip.Laws.{terminalize-save_status}
use balanz.Ingestion.Settlement.{
  heartbeat, renewal, complete, completion, release, release_for_shutdown, is_leased, in_process,
  completes, is_completion,
}
use balanz.Ingestion.Retry.{fail_final, schedule_retry, close_manual, exhausted, failure}
use balanz.Ingestion.Calls.{Moment, Request, run_request}
use balanz.Ingestion.Calls.Step.{Step, Effect, retried, closed}

module _ (policy : Policy) (db : JobDb) (claim : Claim) (m : Moment) where
  abbrev UnchangedOrStep : JobDb → Type 0
  UnchangedOrStep db' = (db' ≡ db) ⊎ Effect policy db claim m db'

  -- Closing the items of a claim's job that is saved as failed for good does not throw.
  closing :
      (j k : IngestionJob) (code : String) (detail : Option String)
      → find_job claim.job_id claim.organization_id db.jobs ≡ some j
      → k.id ≡ j.id
      → k.organization_id ≡ j.organization_id
      → is_manual k.source_type ≡ true
      → is_failed_final k.status ≡ true
      → terminalize_manual_items (save_status db m.later j k) m.third m.last k code detail
        ≡ ok (
          (closed db.items m code detail j k).version,
          record db {
            jobs = save_job (closed db.items m code detail j k) db.jobs;
            items = close_items k code detail m.third (zip_items m.later j k db.items);
          },
        )
  closing j k code detail found same_id same_organization manual final =
      let own = find_job_self claim.job_id claim.organization_id db.jobs found in
      terminalize-save_status db m.later m.third m.last j k code detail {before = j} (cc) manual
        final

  heartbeat-effect : UnchangedOrStep (run_request policy db claim m Request.heartbeat)
  unfolding run_request heartbeat
  heartbeat-effect = elim (Result-cases (assert_lease_identity claim)) [
    | inl (e, refused) ↦ inl (ground arith)
    | inr (_, valid) ↦ elim (Option-cases (held_job claim m.now is_leased db.jobs)) [
      | inl missing ↦ inl (ground arith)
      | inr (j, own) ↦ elim (Bool-cases (is_cancel_requested j.status)) [
        | inl cancelling ↦ inl (ground arith)
        | inr renewing ↦ inr (record {
          before = j;
          after = renewal policy m.later j;
          found = (held_job-some claim m.now is_leased db.jobs own).0;
          held = (held_job-some claim m.now is_leased db.jobs own).1;
          step = Step.renews (ground (arith, held_job-some claim m.now is_leased db.jobs own));
          same_id = refl;
          same_organization = refl;
          jobs = ground arith;
          items = inl (ground arith);
        })
      ]
    ]
  ]

  complete-effect :
      (status : JobStatus)
      → UnchangedOrStep (run_request policy db claim m (Request.complete status))
  unfolding run_request complete save_status zip_row
  complete-effect status = elim (Result-cases (assert_lease_identity claim)) [
    | inl (e, refused) ↦ inl (ground arith)
    | inr (_, valid) ↦ elim (Bool-cases (is_completion status)) [
      | inr invalid ↦ inl (ground arith)
      | inl completing ↦ elim (Option-cases (held_job claim m.now (completes status) db.jobs)) [
        | inl missing ↦ inl (ground arith)
        | inr (j, own) ↦ inr (record {
          before = j;
          after = zip_row m.later j (completion status m.later j) db.items;
          found = (held_job-some claim m.now (completes status) db.jobs own).0;
          held = (held_job-some claim m.now (completes status) db.jobs own).1;
          step =
              Step.completes_as status (held_job-some claim m.now (completes status) db.jobs own).2;
          same_id = refl;
          same_organization = refl;
          jobs = ground arith;
          items = inr (inl (completion status m.later j, ground arith));
        })
      ]
    ]
  ]

  release-effect : UnchangedOrStep (run_request policy db claim m Request.release_for_shutdown)
  unfolding run_request release_for_shutdown save_status zip_row
  release-effect = elim (Result-cases (assert_lease_identity claim)) [
    | inl (e, refused) ↦ inl (ground arith)
    | inr (_, valid) ↦ elim (Option-cases (held_job claim m.now is_leased db.jobs)) [
      | inl missing ↦ inl (ground arith)
      | inr (j, own) ↦ inr (record {
        before = j;
        after = zip_row m.later j (release m.later j) db.items;
        found = (held_job-some claim m.now is_leased db.jobs own).0;
        held = (held_job-some claim m.now is_leased db.jobs own).1;
        step = Step.releases (held_job-some claim m.now is_leased db.jobs own).2;
        same_id = refl;
        same_organization = refl;
        jobs = ground arith;
        items = inr (inl (release m.later j, ground arith));
      })
    ]
  ]

  fail_final-effect :
      (code : String) (detail : Option String)
      → UnchangedOrStep (run_request policy db claim m (Request.fail_final code detail))
  unfolding run_request fail_final close_manual save_status zip_row
  fail_final-effect code detail = elim (Result-cases (assert_lease_identity claim)) [
    | inl (e, refused) ↦ inl (ground arith)
    | inr (_, valid) ↦ elim (Result-cases (assert_safe_error code detail)) [
      | inl (e, unsafe) ↦ inl (ground arith)
      | inr (_, safe) ↦ elim (Option-cases (held_job claim m.now in_process db.jobs)) [
        | inl missing ↦ inl (ground arith)
        | inr (j, own) ↦
            let (found, held, processing) = held_job-some claim m.now in_process db.jobs own in
            elim (Bool-cases (is_manual j.source_type)) [
              | inl manual ↦ inr (record {
                before = j;
                after = closed db.items m code detail j (failure code detail m.later j);
                found = found;
                held = held;
                step = Step.fails_closed code detail processing manual;
                same_id = refl;
                same_organization = refl;
                jobs = ground (
                  arith,
                  closing j (failure code detail m.later j) code detail found refl refl manual refl,
                );
                items = inr (
                    inr (
                      failure code detail m.later j,
                      code,
                      detail,
                      ground (
                        arith,
                        closing j (failure code detail m.later j) code detail found refl refl manual
                            refl,
                      ),
                    ));
              })
              | inr fetched ↦ inr (record {
                before = j;
                after = zip_row m.later j (failure code detail m.later j) db.items;
                found = found;
                held = held;
                step = Step.fails code detail processing fetched;
                same_id = refl;
                same_organization = refl;
                jobs = ground arith;
                items = inr (inl (failure code detail m.later j, ground arith));
              })
            ]
      ]
    ]
  ]

  schedule_retry-effect :
      (code : String) (detail : Option String)
      → UnchangedOrStep (run_request policy db claim m (Request.schedule_retry code detail))
  unfolding run_request schedule_retry close_manual save_status zip_row
  schedule_retry-effect code detail = elim (Result-cases (assert_lease_identity claim)) [
    | inl (e, refused) ↦ inl (ground arith)
    | inr (_, valid) ↦ elim (Result-cases (assert_safe_error code detail)) [
      | inl (e, unsafe) ↦ inl (ground arith)
      | inr (_, safe) ↦ elim (Option-cases (held_job claim m.now in_process db.jobs)) [
        | inl missing ↦ inl (ground arith)
        | inr (j, own) ↦
            let (found, held, processing) = held_job-some claim m.now in_process db.jobs own in
            elim (Bool-cases (exhausted policy j && is_manual j.source_type)) [
              | inl closing_items ↦
                  let (final, manual) =
                    and-split (exhausted policy j) (is_manual j.source_type) closing_items in
                  let end =
                    closing j (retried policy m code detail j) code detail found refl refl manual
                      (ground arith) in
                  inr (record {
                    before = j;
                    after = closed db.items m code detail j (retried policy m code detail j);
                    found = found;
                    held = held;
                    step = Step.retries_closed code detail processing final;
                    same_id = refl;
                    same_organization = refl;
                    jobs = ground arith;
                    items = inr (inr (retried policy m code detail j, code, detail, ground arith));
                  })
              | inr plain ↦ inr (record {
                before = j;
                after = zip_row m.later j (retried policy m code detail j) db.items;
                found = found;
                held = held;
                step = Step.retries code detail processing;
                same_id = refl;
                same_organization = refl;
                jobs = ground arith;
                items = inr (inl (retried policy m code detail j, ground arith));
              })
            ]
      ]
    ]
  ]

  -- Each call leaves the tables alone or makes a step of the job that its claim leases.
  pub run_request-effect :
      (request : Request) → UnchangedOrStep (run_request policy db claim m request)
  run_request-effect Request.heartbeat = heartbeat-effect
  run_request-effect Request.release_for_shutdown = release-effect
  run_request-effect (Request.complete status) = complete-effect status
  run_request-effect (Request.fail_final code detail) = fail_final-effect code detail
  run_request-effect (Request.schedule_retry code detail) = schedule_retry-effect code detail
