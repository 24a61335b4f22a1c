-- ===== src/Ingestion/Claim.antt =====
-- The identity of a lease, its validation, and the conditional updates of one job by it
-- (modules/ingestion/services/ingestion-job.repository.ts). A statement reads the clock for its
-- condition as `now` and for the columns that it sets as `later`.
pub mod Laws
use balanz.Prelude.{
  ℕ, String, Bool, false, not, ◌&&◌, List, [], ◌∷◌, ◌++◌, Option, none, some, ltb, find, is_some_of,
  truthy, update_where, if◌then◌else◌, ◌==◌,
}
use balanz.Http.{Result, plain_error, throw_if, ◌>>◌}
use balanz.Ingestion.Job.{IngestionJob, JobDb, JobEvent}
use balanz.Ingestion.Policy.{assert_worker_id, assert_canonical_fiscal_error_code, is_safe_detail}

-- JobLeaseIdentity, without the membership that only scopes the transaction
pub record Claim : Type 0 where
  pub job_id : String
  pub organization_id : String
  pub worker_id : String
  pub lease_token : String

-- assertLeaseIdentity
unfoldable pub assert_lease_identity : Claim → Result (Unit {0})
assert_lease_identity claim = do
  assert_worker_id claim.worker_id
  assert_worker_id claim.lease_token
  throw_if (not (truthy (some claim.job_id) && truthy (some claim.organization_id)))
      (plain_error "Job and organization IDs are required")
  throw_if (claim.worker_id == claim.lease_token) (plain_error "A unique lease token is required")

-- assertSafeError
unfoldable pub assert_safe_error : String → Option String → Result (Unit {0})
assert_safe_error error_code safe_detail = do
  assert_canonical_fiscal_error_code error_code
  throw_if (not (is_safe_detail safe_detail)) (plain_error "Safe error detail is invalid")

-- `id = $1 AND organization_id = $2`
abbrev pub is_job : String → String → IngestionJob → Bool
is_job id organization_id j = j.id == id && j.organization_id == organization_id

unfoldable pub find_job : String → String → List IngestionJob → Option IngestionJob
find_job id organization_id jobs = find (is_job id organization_id) jobs

-- The row with the keys of `j` is replaced by `j`.
unfoldable pub save_job : IngestionJob → List IngestionJob → List IngestionJob
save_job j jobs = update_where (is_job j.id j.organization_id) (λ _. j) jobs

abbrev pub expires_after : ℕ → Option ℕ → Bool
expires_after now none = false
expires_after now (some t) = ltb now t

-- `locked_by = $3 AND lease_expires_at > clock_timestamp()`
unfoldable pub holds_lease : Claim → ℕ → IngestionJob → Bool
holds_lease claim now j =
    is_some_of j.locked_by claim.lease_token && expires_after now j.lease_expires_at

-- `UPDATE ingestion_jobs SET … WHERE … RETURNING …` of the claim's job, which is unique by its
-- primary key: the row as it was, if it satisfies the rest of the condition.
unfoldable pub held_job :
    Claim → ℕ → (IngestionJob → Bool) → List IngestionJob → Option IngestionJob
held_job claim now condition jobs = elim (find_job claim.job_id claim.organization_id jobs) [
  | none ↦ none
  | some j ↦ if holds_lease claim now j && condition j then some j else none
]

abbrev pub with_jobs : List IngestionJob → JobDb → JobDb
with_jobs jobs db = record db { jobs = jobs }

abbrev pub with_event : JobEvent → JobDb → JobDb
with_event event db = record db { events = db.events ++ event ∷ [] }
