-- ===== src/JobQueue/Lock.antt =====
-- lib/services/jobs.ts: the rows that an operation locks before it writes. Lock order and waiting
-- are PostgreSQL's: a transaction here runs alone.
use ai_research_workbench.Common.{
  ℕ, Bool, true, false, ◌&&◌, Option, none, some, List, [], ◌∷◌, ltb, find, includes, nat_eq, Text,
  text_eq, Text_eq,
}
use ai_research_workbench.Common.Outcome.{
  Thrown, not_found_error, conflict, job_lease_lost, stale_job_version, job_run_link_broken,
}
use ai_research_workbench.Domain.Jobs.{JobStatus, JobStatus_eq}
use ai_research_workbench.Store.{Tx, pure, fail, ◌>>=◌, ◌>>◌, guard, gets, find_job}
use ai_research_workbench.Store.Tables.{Db, JobRow, RunRow, StageRow}

-- `rows[0]`, or an error if there is no row.
unfoldable pub row_or : {A : Type 0} → Thrown → Option A → Tx A
row_or e none = fail e
row_or e (some row) = pure row

-- The project of a job, where it has one, must be there.
project_exists : Option Text → Db → Bool
project_exists none db = true
project_exists (some id) db = includes db.projects id

unfoldable pub lock_job_project_first : Text → Tx JobRow
unfolding project_exists
lock_job_project_first job_id = do
  identity ← gets (λ db. find_job job_id db.jobs)
  seen ← row_or not_found_error identity
  there ← gets (project_exists seen.project_id)
  guard there not_found_error
  job ← gets (λ db. find_job job_id db.jobs)
  row_or not_found_error job

unfoldable pub is_owner : Option Text → Text → Bool
is_owner none worker = false
is_owner (some owner) worker = text_eq owner worker

-- `lease_expires_at > NOW()`; a comparison with NULL is not true.
unfoldable pub lease_current : Option ℕ → ℕ → Bool
lease_current none now = false
lease_current (some expiry) now = ltb now expiry

-- `expectedVersion === undefined || job.version === expectedVersion`
unfoldable pub version_matches : Option ℕ → ℕ → Bool
version_matches none version = true
version_matches (some expected) version = nat_eq version expected

unfoldable pub holds_lease : Text → List JobStatus → ℕ → JobRow → Bool
unfolding is_owner lease_current
holds_lease worker allowed now job =
    is_owner job.lease_owner worker
    && lease_current job.lease_expires_at now
    && includes allowed job.status

unfoldable pub lock_owned_job : Text → Text → List JobStatus → Option ℕ → Tx JobRow
lock_owned_job job_id worker allowed expected_version = do
  locked ← lock_job_project_first job_id
  current ← gets (λ db. find_job locked.id db.jobs)
  job ← row_or (conflict job_lease_lost) current
  now ← gets (λ db. db.now)
  guard (holds_lease worker allowed now job) (conflict job_lease_lost)
  guard (version_matches expected_version job.version) (conflict stale_job_version)
  pure job

unfoldable pub find_run : Text → List RunRow → Option RunRow
find_run id = find (λ r. text_eq r.id id)

-- `WHERE id = $1 AND run_id = $2`
unfoldable pub find_stage : Text → Text → List StageRow → Option StageRow
find_stage id run_id = find (λ s. text_eq s.id id && text_eq s.run_id run_id)

unfoldable pub find_linked_stage : Text → Option Text → Tx (Option StageRow)
find_linked_stage run_id none = pure none
find_linked_stage run_id (some stage_id) = do
  stage ← gets (λ db. find_stage stage_id run_id db.stages)
  row ← row_or (conflict job_run_link_broken) stage
  pure (some row)

unfoldable pub lock_linked : Option Text → Option Text → Tx (Option (RunRow × Option StageRow))
unfolding find_linked_stage
lock_linked none stage_id = pure none
lock_linked (some run_id) stage_id = do
  found ← gets (λ db. find_run run_id db.runs)
  run ← row_or (conflict job_run_link_broken) found
  stage ← find_linked_stage run_id stage_id
  pure (some (run, stage))

-- An empty text is as good as none: `!job.run_id`.
unfoldable pub truthy : Option Text → Option Text
truthy none = none
truthy (some []) = none
truthy (some (c ∷ t)) = some (c ∷ t)

unfoldable pub lock_linked_research_state : JobRow → Tx (Option (RunRow × Option StageRow))
unfolding lock_linked truthy
lock_linked_research_state job = lock_linked (truthy job.run_id) (truthy job.run_stage_id)
