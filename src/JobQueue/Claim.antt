-- ===== src/JobQueue/Claim.antt =====
-- lib/services/jobs.ts: `claimJobs`. Text is ordered by the collation of the database, a parameter;
-- `locked` says which rows another transaction holds, which SKIP LOCKED leaves out.
use ai_research_workbench.Common.{
  ℕ, ◌+◌, Bool, true, false, not, ◌&&◌, ◌||◌, Option, none, some, List, [], ◌∷◌, map, take, filter,
  includes, leb, ltb, nat_eq, if◌then◌else◌, Text, Text_eq,
}
use ai_research_workbench.Common.Int.{ltb_ℤ}
use ai_research_workbench.Common.Number.{JsNumber}
use ai_research_workbench.Domain.Jobs.{
  JobStatus_eq, queued, claimed, retry_wait, assert_job_transition,
}
use ai_research_workbench.Store.{
  Tx, pure, ◌>>=◌, ◌>>◌, lift, gets, write_job, write_event, insert_attempt,
}
use ai_research_workbench.Store.Tables.{JobRow, job_status, job_claimed}
use ai_research_workbench.JobQueue.Config.{
  bounded_integer, bounded_text, bounded_run_ids, bounded_job_types,
}
use ai_research_workbench.JobQueue.Lease.{transition_event}
use ai_research_workbench.JobQueue.Rows.{claimed_row}

-- `$4::text[] IS NULL OR job_type = ANY($4::text[])`
type_selected : Option (List Text) → Text → Bool
type_selected none job_type = true
type_selected (some types) job_type = includes types job_type

-- `$5::text[] IS NULL OR run_id = ANY($5::text[])`; NULL is in no list.
unfoldable pub run_selected : Option (List Text) → Option Text → Bool
run_selected none run_id = true
run_selected (some ids) none = false
run_selected (some ids) (some run_id) = includes ids run_id

-- The WHERE clause of `candidates`.
unfoldable pub is_candidate : ℕ → Option (List Text) → Option (List Text) → JobRow → Bool
unfolding type_selected run_selected
is_candidate now types run_ids j =
    includes (queued ∷ retry_wait ∷ []) j.status
    && leb j.scheduled_at now
    && ltb j.attempts j.max_attempts
    && type_selected types j.job_type
    && run_selected run_ids j.run_id

module _ (id_le : Text → Text → Bool) where
  -- ORDER BY priority DESC, scheduled_at, id
  unfoldable pub goes_before : JobRow → JobRow → Bool
  goes_before a b =
      ltb_ℤ b.priority a.priority
      || not (ltb_ℤ a.priority b.priority)
        && (ltb a.scheduled_at b.scheduled_at
            || nat_eq a.scheduled_at b.scheduled_at && id_le a.id b.id)

  unfoldable pub insert_ordered : JobRow → List JobRow → List JobRow
  insert_ordered j [] = j ∷ []
  insert_ordered j (k ∷ ks) =
      let rest = insert_ordered j ks in if goes_before j k then j ∷ k ∷ ks else k ∷ rest

  unfoldable pub order_jobs : List JobRow → List JobRow
  order_jobs [] = []
  order_jobs (j ∷ js) = insert_ordered j (order_jobs js)

  -- The rows of `candidates`.
  unfoldable pub candidates :
      ℕ → ℕ → Option (List Text) → Option (List Text) → (JobRow → Bool) → List JobRow → List JobRow
  candidates limit now types run_ids locked jobs =
      take limit
        (order_jobs (filter (λ j. is_candidate now types run_ids j && not (locked j)) jobs))

-- The UPDATE of every candidate.
unfoldable pub write_claimed : List JobRow → Tx (Unit {0})
write_claimed [] = pure tt
write_claimed (j ∷ js) = let rest = write_claimed js in (do write_job j; rest)

-- The loop over the claimed rows: `job` is the row before its UPDATE.
unfoldable pub record_claims : Text → List JobRow → Tx (Unit {0})
record_claims worker [] = pure tt
record_claims worker (job ∷ rest) =
    let others = record_claims worker rest in
    (do
      lift (assert_job_transition job.status claimed)
      insert_attempt (record {
        job_id = job.id;
        attempt_number = job.attempts + 1;
        worker_id = worker;
        status = job_status claimed;
        error_class = none;
        sanitized_error = none;
        retry_after_ms = none;
        completed_at = none;
      })
      write_event (transition_event job job_claimed claimed (some worker))
      others)

is_empty : Option (List Text) → Bool
is_empty (some []) = true
is_empty _ = false

-- `jobTypes?.length === 0 || runIds?.length === 0`
unfoldable pub nothing_selected : Option (List Text) → Option (List Text) → Bool
unfolding is_empty
nothing_selected types run_ids = is_empty types || is_empty run_ids

-- The transaction of `claimJobs`.
unfoldable pub claim_candidates : Text → ℕ → List JobRow → Tx (List JobRow)
claim_candidates worker lease_ms chosen = do
  now ← gets (λ db. db.now)
  let leased = map (claimed_row now worker lease_ms) chosen
  write_claimed leased
  record_claims worker chosen
  pure leased

-- The arguments of `claimJobs`, defaults filled in.
pub record ClaimInput : Type 0 where
  pub worker_id : Text
  pub limit : JsNumber
  pub lease_duration_ms : JsNumber
  pub job_types : Option (List Text)
  pub run_ids : Option (List Text)

unfoldable pub claim_jobs : (Text → Text → Bool) → (JobRow → Bool) → ClaimInput → Tx (List JobRow)
claim_jobs id_le locked input = do
  worker ← lift (bounded_text input.worker_id 500)
  limit ← lift (bounded_integer input.limit 1 100)
  lease_ms ← lift (bounded_integer input.lease_duration_ms 1 86400000)
  types ← lift (bounded_job_types input.job_types)
  run_ids ← lift (bounded_run_ids input.run_ids)
  chosen ← gets (λ db. candidates id_le limit db.now types run_ids locked db.jobs)
  if nothing_selected types run_ids then pure [] else claim_candidates worker lease_ms chosen
