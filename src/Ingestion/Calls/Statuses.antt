-- ===== src/Ingestion/Calls/Statuses.antt =====
-- The state machine of a leased job, whatever the workers call.
use balanz.Prelude.{
  String, ◌≡◌, sym, subst, arith, Bool, true, false, List, [], ◌∷◌, some, inl, inr, ◌||◌,
  if◌then◌else◌,
}
use balanz.Ingestion.Job.{
  IngestionJob, IngestionItem, JobDb, JobStatus, is_processing, is_cancel_requested,
}
use balanz.Ingestion.Policy.{Policy}
use balanz.Ingestion.Claim.{find_job}
use balanz.Ingestion.ManualZip.{zip_row}
use balanz.Ingestion.Settlement.{completes}
use balanz.Ingestion.Retry.{exhausted}
use balanz.Ingestion.Calls.{Moment, Call, run_call, run_calls}
use balanz.Ingestion.Calls.Step.{Step}
use balanz.Ingestion.Calls.Step.Effects.{run_request-effect}
use balanz.Ingestion.Calls.Fence.{Effect-find_job}

-- The statuses that a worker may leave a job in: itself, or one change.
pub data Follows : JobStatus → JobStatus → Type 0 where
  stays : {s : JobStatus} → Follows s s
  ends : Follows JobStatus.processing JobStatus.completed
  ends_with_issues : Follows JobStatus.processing JobStatus.completed_with_issues
  waits : Follows JobStatus.processing JobStatus.failed_retryable
  fails : Follows JobStatus.processing JobStatus.failed_final
  returns : Follows JobStatus.processing JobStatus.queued
  cancels : Follows JobStatus.cancel_requested JobStatus.cancelled

processing_eq : (s : JobStatus) → is_processing s ≡ true → s ≡ JobStatus.processing
processing_eq s h = ground arith

cancel_requested_eq :
    (s : JobStatus) → is_cancel_requested s ≡ true → s ≡ JobStatus.cancel_requested
cancel_requested_eq s h = ground arith

-- No status follows after a change.
Follows-trans : {a b c : JobStatus} → Follows a b → Follows b c → Follows a c
Follows-trans Follows.stays second = second
Follows-trans first Follows.stays = first

from_processing :
    {t : JobStatus} (s : JobStatus)
    → Follows JobStatus.processing t
    → is_processing s ≡ true
    → Follows s t
from_processing {t} s follows h = subst (λ x. Follows x t) (sym (processing_eq s h)) follows

complete-Follows :
    (status : JobStatus) (j : IngestionJob) → completes status j ≡ true → Follows j.status status
complete-Follows JobStatus.completed j h = from_processing j.status Follows.ends h
complete-Follows JobStatus.completed_with_issues j h =
    from_processing j.status Follows.ends_with_issues h
complete-Follows JobStatus.cancelled j h =
    subst (λ x. Follows x JobStatus.cancelled) (sym (cancel_requested_eq j.status h))
      Follows.cancels
complete-Follows JobStatus.awaiting_upload j h = cc
complete-Follows JobStatus.queued j h = cc
complete-Follows JobStatus.processing j h = cc
complete-Follows JobStatus.failed_retryable j h = cc
complete-Follows JobStatus.failed_final j h = cc
complete-Follows JobStatus.cancel_requested j h = cc

retry-Follows :
    (final : Bool) (s : JobStatus)
    → is_processing s ≡ true
    → Follows s (if final then JobStatus.failed_final else JobStatus.failed_retryable)
retry-Follows true s h = from_processing s Follows.fails h
retry-Follows false s h = from_processing s Follows.waits h

release-Follows :
    (s : JobStatus)
    → (is_processing s || is_cancel_requested s) ≡ true
    → Follows s (if is_cancel_requested s then JobStatus.cancelled else JobStatus.queued)
release-Follows JobStatus.processing h = Follows.returns
release-Follows JobStatus.cancel_requested h = Follows.cancels
release-Follows JobStatus.awaiting_upload h = cc
release-Follows JobStatus.queued h = cc
release-Follows JobStatus.completed h = cc
release-Follows JobStatus.completed_with_issues h = cc
release-Follows JobStatus.failed_retryable h = cc
release-Follows JobStatus.failed_final h = cc
release-Follows JobStatus.cancelled h = cc

Step-Follows :
    (policy : Policy) (m : Moment) (items : List IngestionItem) {j k : IngestionJob}
    → Step policy m items j k
    → Follows j.status k.status
unfolding zip_row
Step-Follows policy m items {j} (Step.renews from) = Follows.stays
Step-Follows policy m items {j} (Step.completes_as status from) = complete-Follows status j from
Step-Follows policy m items {j} (Step.fails code detail from fetched) =
    from_processing j.status Follows.fails from
Step-Follows policy m items {j} (Step.fails_closed code detail from manual) =
    from_processing j.status Follows.fails from
Step-Follows policy m items {j} (Step.retries code detail from) =
    retry-Follows (exhausted policy j) j.status from
Step-Follows policy m items {j} (Step.retries_closed code detail from final) =
    retry-Follows (exhausted policy j) j.status from
Step-Follows policy m items {j} (Step.releases from) = release-Follows j.status from

-- The job of the keys after a call, which is there and whose status follows the one before.
abbrev FollowsIn : String → String → IngestionJob → JobDb → Type 0
FollowsIn id organization_id j db' =
    (k : IngestionJob) × (find_job id organization_id db'.jobs ≡ some k) × Follows j.status k.status

run_call-FollowsIn :
    (policy : Policy) (db : JobDb) (call : Call) (id organization_id : String) {j : IngestionJob}
    → find_job id organization_id db.jobs ≡ some j
    → FollowsIn id organization_id j (run_call policy db call)
unfolding run_call
run_call-FollowsIn policy db call id organization_id {j} found =
    elim (run_request-effect policy db call.claim call.moment call.request) [
      | inl unchanged ↦ (
        j,
        subst (λ d. find_job id organization_id d.jobs ≡ some j) (sym unchanged) found,
        Follows.stays,
      )
      | inr e ↦
          elim (Effect-find_job policy db _ call.claim call.moment id organization_id e found) [
            | inl same ↦ (j, same, Follows.stays)
            | inr (same, found') ↦ (
              e.after,
              found',
              subst (λ x. Follows x.status e.after.status) same
                  (Step-Follows policy call.moment db.items e.step),
            )
          ]
    ]

-- Whatever the workers call, a job stays in the table and its status is then the one before, or one
-- change from it: from `processing` completed, completed with issues, failed (to retry or for
-- good) or queued again, and from `cancel_requested` only cancelled.
pub run_calls-Follows :
    (policy : Policy) (db : JobDb) (calls : List Call) (id organization_id : String)
    (j : IngestionJob)
    → find_job id organization_id db.jobs ≡ some j
    → (k : IngestionJob) × (find_job id organization_id (run_calls policy db calls).jobs ≡ some k)
      × Follows j.status k.status
unfolding run_calls
run_calls-Follows policy db [] id organization_id j found = (j, found, Follows.stays)
run_calls-Follows policy db (call ∷ calls) id organization_id j found =
    let (k, found', first) = run_call-FollowsIn policy db call id organization_id found in
    let (l, found'', second) =
      run_calls-Follows policy (run_call policy db call) calls id organization_id k found' in
    (l, found'', Follows-trans first second)
