-- ===== src/JobQueue/Invariant/Locks.antt =====
-- The rows that an operation locks are valid, and what it does to linked rows writes no job.
use ai_research_workbench.Common.{
  ℕ, ◌≡◌, refl, true, Option, none, some, List, arith, includes, Text,
}
use ai_research_workbench.Common.Outcome.{
  Thrown, not_found_error, conflict, job_lease_lost, stale_job_version,
}
use ai_research_workbench.Domain.Jobs.{JobStatus, JobStatus_eq}
use ai_research_workbench.Domain.Runs.{RunStatus_eq}
use ai_research_workbench.Store.{gets}
use ai_research_workbench.Store.Tables.{Db, JobRow}
use ai_research_workbench.JobQueue.Lock.{
  row_or, lock_job_project_first, lock_owned_job, holds_lease, version_matches,
}
use ai_research_workbench.JobQueue.Invariant.{
  IsValid, Spec, True, Found, Spec-bind, Spec-pure, Spec-fail, Spec-gets, Spec-guard, Spec-find_job,
}

Spec-row_or : (e : Thrown) (o : Option JobRow) → Found o → Spec (row_or e o) IsValid
unfolding row_or
Spec-row_or e none f = Spec-fail IsValid e
Spec-row_or e (some j) f = Spec-pure IsValid j (f j refl)

pub Spec-any_row : {A : Type 0} (e : Thrown) (o : Option A) → Spec (row_or e o) True
unfolding row_or
Spec-any_row e none = Spec-fail True e
Spec-any_row e (some a) = Spec-pure True a tt

-- A read of the tables whose value the proof does not look at.
pub Spec-read : {A : Type 0} (f : Db → A) → Spec (gets f) True
Spec-read f = Spec-gets True f (λ db g. tt)

pub Spec-lock_job_project_first : (id : Text) → Spec (lock_job_project_first id) IsValid
unfolding lock_job_project_first
Spec-lock_job_project_first id = Spec-bind (Spec-find_job id) λ identity f.
    Spec-bind (Spec-row_or not_found_error identity f) λ seen _. Spec-bind (Spec-read _) λ there _.
      Spec-bind (Spec-guard there not_found_error)
        λ _ _. Spec-bind (Spec-find_job id) λ job g. Spec-row_or not_found_error job g

-- The job of an owned lock is valid and in an allowed status.
pub record Owned (allowed : List JobStatus) (j : JobRow) : Type 0 where
  pub valid : IsValid j
  pub status : includes allowed j.status ≡ true

holds_lease-allowed :
    (worker : Text) (allowed : List JobStatus) (now : ℕ) (job : JobRow)
    → holds_lease worker allowed now job ≡ true
    → includes allowed job.status ≡ true
unfolding holds_lease
holds_lease-allowed worker allowed now job h = ground arith

pub Spec-lock_owned_job :
    (id worker : Text) (allowed : List JobStatus) (expected : Option ℕ)
    → Spec (lock_owned_job id worker allowed expected) (Owned allowed)
unfolding lock_owned_job
Spec-lock_owned_job id worker allowed expected =
    Spec-bind (Spec-lock_job_project_first id) λ locked _.
      Spec-bind (Spec-find_job locked.id) λ current f.
        Spec-bind (Spec-row_or (conflict job_lease_lost) current f) λ job v.
          Spec-bind (Spec-read _) λ now _.
            Spec-bind (Spec-guard (holds_lease worker allowed now job) (conflict job_lease_lost))
              λ _ held.
                Spec-bind
                  (Spec-guard (version_matches expected job.version) (conflict stale_job_version))
                  λ _ _.
                    Spec-pure (Owned allowed) job (record {
                      valid = v;
                      status = holds_lease-allowed worker allowed now job held;
                    })
