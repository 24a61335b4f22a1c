-- ===== src/Ingestion/Claim/Laws.antt =====
-- What finding, holding and saving the job of a claim guarantee.
use balanz.Prelude.{
  ℕ, String, ◌≡◌, refl, arith, Bool, true, false, List, [], ◌∷◌, some, all, Option-cases,
  find_holds, find-update_self, find-update_ne, inl, inr, eq_iff, eq_refl,
}
use balanz.Ingestion.Job.{IngestionJob}
use balanz.Ingestion.Claim.{Claim, is_job, find_job, save_job, holds_lease, held_job}

-- A job that a statement updates is the claim's, leased to it, and satisfies the condition.
pub held_job-some :
    (claim : Claim) (now : ℕ) (condition : IngestionJob → Bool) (jobs : List IngestionJob)
    {j : IngestionJob}
    → held_job claim now condition jobs ≡ some j
    → (find_job claim.job_id claim.organization_id jobs ≡ some j)
      × (holds_lease claim now j ≡ true)
      × (condition j ≡ true)
unfolding held_job
held_job-some claim now condition jobs {j} h =
    elim (Option-cases (find_job claim.job_id claim.organization_id jobs)) [
      | inl missing ↦ absurd (ground arith)
      | inr (x, found) ↦ ground arith
    ]

pub find_job-keys :
    (id organization_id : String) (jobs : List IngestionJob) {j : IngestionJob}
    → find_job id organization_id jobs ≡ some j
    → (j.id ≡ id) × (j.organization_id ≡ organization_id)
unfolding find_job
find_job-keys id organization_id jobs {j} h = ground (
  arith,
  find_holds (is_job id organization_id) jobs {x = j} h,
  eq_iff j.id id,
  eq_iff j.organization_id organization_id,
)

pub find-save_job :
    (j : IngestionJob) (jobs : List IngestionJob) {before : IngestionJob}
    → find_job j.id j.organization_id jobs ≡ some before
    → find_job j.id j.organization_id (save_job j jobs) ≡ some j
unfolding find_job save_job
find-save_job j jobs {before} h =
    find-update_self (is_job j.id j.organization_id) (λ _. j) jobs h
      (ground (arith, eq_refl j.id, eq_refl j.organization_id))

-- Saving a job leaves the jobs with other keys alone.
pub find-save_job_ne :
    (j : IngestionJob) (jobs : List IngestionJob) (id organization_id : String)
    → is_job id organization_id j ≡ false
    → find_job id organization_id (save_job j jobs) ≡ find_job id organization_id jobs
unfolding find_job save_job
find-save_job_ne j jobs id organization_id ne =
    find-update_ne (is_job j.id j.organization_id) (is_job id organization_id) (λ _. j) jobs
      (λ x h. ground (
        arith,
        eq_iff x.id j.id,
        eq_iff x.organization_id j.organization_id,
        eq_iff x.id id,
        eq_iff x.organization_id organization_id,
        eq_iff j.id id,
        eq_iff j.organization_id organization_id,
      ))
      (λ x h. ne)

pub all-save_job :
    (p : IngestionJob → Bool) (j : IngestionJob) (jobs : List IngestionJob)
    → all p jobs ≡ true
    → p j ≡ true
    → all p (save_job j jobs) ≡ true
unfolding save_job
all-save_job p j [] h k = refl
all-save_job p j (x ∷ jobs) h k = ground (arith, all-save_job p j jobs)

pub all-find_job :
    (p : IngestionJob → Bool) (id organization_id : String) (jobs : List IngestionJob)
    {j : IngestionJob}
    → all p jobs ≡ true
    → find_job id organization_id jobs ≡ some j
    → p j ≡ true
unfolding find_job
all-find_job p id organization_id [] {j} h found = ground arith
all-find_job p id organization_id (x ∷ jobs) {j} h found =
    ground (arith, all-find_job p id organization_id jobs {j = j})

-- Of two saves of one job the second stays.
pub save_job-save_job :
    (j k : IngestionJob) (jobs : List IngestionJob)
    → j.id ≡ k.id
    → j.organization_id ≡ k.organization_id
    → save_job k (save_job j jobs) ≡ save_job k jobs
unfolding save_job
save_job-save_job j k [] same_id same_organization = refl
save_job-save_job j k (x ∷ jobs) same_id same_organization = ground (
  arith,
  save_job-save_job j k jobs same_id same_organization,
  eq_refl k.id,
  eq_refl k.organization_id,
)

-- A found job is found by its own keys.
pub find_job_self :
    (id organization_id : String) (jobs : List IngestionJob) {j : IngestionJob}
    → find_job id organization_id jobs ≡ some j
    → find_job j.id j.organization_id jobs ≡ some j
find_job_self id organization_id jobs {j} found =
    let (same_id, same_organization) = find_job-keys id organization_id jobs found in cc

-- A statement updates the claim's job when it is leased to it and satisfies the condition.
pub held_job-intro :
    (claim : Claim) (now : ℕ) (condition : IngestionJob → Bool) (jobs : List IngestionJob)
    (j : IngestionJob)
    → find_job claim.job_id claim.organization_id jobs ≡ some j
    → holds_lease claim now j ≡ true
    → condition j ≡ true
    → held_job claim now condition jobs ≡ some j
unfolding held_job
held_job-intro claim now condition jobs j found held fits = ground (arith, found, held, fits)

-- Saving a row under the keys of the claim's job replaces it.
pub find-save_claimed :
    (id organization_id : String) (j k : IngestionJob) (jobs : List IngestionJob)
    → find_job id organization_id jobs ≡ some j
    → k.id ≡ j.id
    → k.organization_id ≡ j.organization_id
    → find_job id organization_id (save_job k jobs) ≡ some k
find-save_claimed id organization_id j k jobs found same_id same_organization =
    let (own_id, own_organization) = find_job-keys id organization_id jobs found in
    let saved : find_job k.id k.organization_id (save_job k jobs) ≡ some k =
      find-save_job k jobs {before = j} (cc) in
    cc
