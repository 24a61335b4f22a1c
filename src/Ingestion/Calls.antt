-- ===== src/Ingestion/Calls.antt =====
-- The calls of the workers on the repository of jobs, in any order and with any readings of the
-- clock: an interleaving of workers is a list of calls.
pub mod Step
pub mod Invariant
pub mod Fence
pub mod Statuses
use balanz.Prelude.{
  ltb, is_some_of, ◌&&◌, ℕ, String, Bool, false, List, [], ◌∷◌, Option, none, some,
}
use balanz.Http.{Result, ok, err}
use balanz.Ingestion.Job.{JobDb, JobStatus}
use balanz.Ingestion.Policy.{Policy}
use balanz.Ingestion.Claim.{Claim, find_job}
use balanz.Ingestion.Settlement
use balanz.Ingestion.Retry

-- The readings of the clock during a call, and the random draw of a backoff.
pub record Moment : Type 0 where
  pub now : ℕ
  pub later : ℕ
  pub third : ℕ
  pub last : ℕ
  pub draw : ℕ
  pub range : ℕ

pub data Request : Type 0 where
  heartbeat release_for_shutdown : Request
  complete : JobStatus → Request
  fail_final schedule_retry : String → Option String → Request

pub record Call : Type 0 where
  pub claim : Claim
  pub moment : Moment
  pub request : Request

-- The tables that a call leaves; an exception rolls the transaction back.
abbrev pub after {ℓ} : {A : Type ℓ} → JobDb → Result (A × JobDb) → JobDb
after db (err failure) = db
after db (ok (a, db')) = db'

unfoldable pub run_request : Policy → JobDb → Claim → Moment → Request → JobDb
run_request policy db claim m Request.heartbeat =
    after db (Settlement.heartbeat policy db m.now m.later claim)
run_request policy db claim m Request.release_for_shutdown =
    after db (Settlement.release_for_shutdown db m.now m.later claim)
run_request policy db claim m (Request.complete status) =
    after db (Settlement.complete db m.now m.later claim status)
run_request policy db claim m (Request.fail_final code detail) =
    after db (Retry.fail_final db m.now m.later m.third m.last claim code detail)
run_request policy db claim m (Request.schedule_retry code detail) =
    after db
      (Retry.schedule_retry policy m.draw m.range db m.now m.later m.third m.last claim code detail)

unfoldable pub run_call : Policy → JobDb → Call → JobDb
run_call policy db call = run_request policy db call.claim call.moment call.request

unfoldable pub run_calls : Policy → JobDb → List Call → JobDb
run_calls policy db [] = db
run_calls policy db (call ∷ calls) = run_calls policy (run_call policy db call) calls

-- Whether the job of the claim is there, locked by its token, with a lease that ends later.
unfoldable pub is_held : Claim → ℕ → JobDb → Bool
is_held claim now db = elim (find_job claim.job_id claim.organization_id db.jobs) [
  | none ↦ false
  | some j ↦ elim j.lease_expires_at [
    | none ↦ false
    | some t ↦ is_some_of j.locked_by claim.lease_token && ltb now t
  ]
]
