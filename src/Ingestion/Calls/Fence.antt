-- ===== src/Ingestion/Calls/Fence.antt =====
-- What the lease fences off: jobs that are not leased, or not by the claim, stay as they are.
use balanz.Prelude.{
  String, ◌≡◌, ◌⊎◌, sym, subst, ◌∙◌, arith, true, false, List, [], ◌∷◌, some, inl, inr, Bool-cases,
  eq_iff,
}
use balanz.Ingestion.Job.{IngestionJob, IngestionItem, JobDb}
use balanz.Ingestion.Policy.{Policy}
use balanz.Ingestion.Claim.{Claim, is_job, find_job, save_job, holds_lease}
use balanz.Ingestion.Claim.Laws.{find-save_job, find-save_job_ne, find_job_self}
use balanz.Ingestion.Settlement.{is_leased}
use balanz.Ingestion.Calls.{Moment, Call, run_call, run_calls, is_held}
use balanz.Ingestion.Calls.Step.{Step, Effect}
use balanz.Ingestion.Calls.Step.Effects.{run_request-effect}

-- A call whose claim does not hold the lease of its job, or holds it no longer, changes nothing:
-- no job, no item, no record.
pub run_call-fenced :
    (policy : Policy) (db : JobDb) (call : Call)
    → is_held call.claim call.moment.now db ≡ false
    → run_call policy db call ≡ db
unfolding run_call is_held holds_lease
run_call-fenced policy db call h =
    elim (run_request-effect policy db call.claim call.moment call.request) [
      | inl unchanged ↦ unchanged
      | inr e ↦ absurd (ground (arith, e.found, e.held))
    ]

-- A step starts from a leased job.
Step-is_leased :
    (policy : Policy) (m : Moment) (items : List IngestionItem) {j k : IngestionJob}
    → Step policy m items j k
    → is_leased j ≡ true
Step-is_leased policy m items {j} (Step.renews from) = ground arith
Step-is_leased policy m items {j} (Step.completes_as status from) = ground arith
Step-is_leased policy m items {j} (Step.fails code detail from fetched) = ground arith
Step-is_leased policy m items {j} (Step.fails_closed code detail from manual) = ground arith
Step-is_leased policy m items {j} (Step.retries code detail from) = ground arith
Step-is_leased policy m items {j} (Step.retries_closed code detail from final) = ground arith
Step-is_leased policy m items {j} (Step.releases from) = from

is_job-eq :
    (id organization_id : String) (j : IngestionJob)
    → is_job id organization_id j ≡ true
    → (j.id ≡ id) × (j.organization_id ≡ organization_id)
is_job-eq id organization_id j h =
    ground (arith, eq_iff j.id id, eq_iff j.organization_id organization_id)

-- A job with other keys than the effect's stays; the effect's own job becomes its row after.
pub Effect-find_job :
    (policy : Policy) (db db' : JobDb) (claim : Claim) (m : Moment) (id organization_id : String)
    {j : IngestionJob}
    → (e : Effect policy db claim m db') → find_job id organization_id db.jobs ≡ some j
    → (find_job id organization_id db'.jobs ≡ some j)
      ⊎ ((e.before ≡ j) × (find_job id organization_id db'.jobs ≡ some e.after))
Effect-find_job policy db db' claim m id organization_id {j} e found =
    elim (Bool-cases (is_job id organization_id e.after)) [
      | inr other ↦
          inl (rw e.jobs (find-save_job_ne e.after db.jobs id organization_id other ∙ found))
      | inl own ↦
          let (own_id, own_organization) = is_job-eq id organization_id e.after own in
          let before_found = find_job_self claim.job_id claim.organization_id db.jobs e.found in
          let same_id = e.same_id in
          let same_organization = e.same_organization in
          let same_jobs = e.jobs in
          let after_found : find_job e.after.id e.after.organization_id (save_job e.after db.jobs)
              ≡ some e.after =
            find-save_job e.after db.jobs {before = e.before} (cc) in
          inr (cc, cc)
    ]

unleased_stays :
    (policy : Policy) (db : JobDb) (call : Call) (id organization_id : String) {j : IngestionJob}
    → find_job id organization_id db.jobs ≡ some j
    → is_leased j ≡ false
    → find_job id organization_id (run_call policy db call).jobs ≡ some j
unfolding run_call
unleased_stays policy db call id organization_id {j} found unleased =
    elim (run_request-effect policy db call.claim call.moment call.request) [
      | inl unchanged ↦
          subst (λ d. find_job id organization_id d.jobs ≡ some j) (sym unchanged) found
      | inr e ↦
          elim (Effect-find_job policy db _ call.claim call.moment id organization_id e found) [
            | inl same ↦ same
            | inr (same, found') ↦
                let leased = Step-is_leased policy call.moment db.items e.step in
                let leased_j : is_leased j ≡ true = subst (λ x. is_leased x ≡ true) same leased in
                absurd (ground arith)
          ]
    ]

-- A job that is neither in process nor asked to be cancelled is the same row after any calls of
-- the workers, whatever leases they claim to hold.
pub run_calls-unleased :
    (policy : Policy) (db : JobDb) (calls : List Call) (id organization_id : String)
    (j : IngestionJob)
    → find_job id organization_id db.jobs ≡ some j
    → is_leased j ≡ false
    → find_job id organization_id (run_calls policy db calls).jobs ≡ some j
unfolding run_calls
run_calls-unleased policy db [] id organization_id j found unleased = found
run_calls-unleased policy db (call ∷ calls) id organization_id j found unleased =
    run_calls-unleased policy (run_call policy db call) calls id organization_id j
      (unleased_stays policy db call id organization_id found unleased) unleased
