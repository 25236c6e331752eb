-- ===== src/JobQueue/Recover.antt =====
-- lib/services/jobs.ts: `recoverExpiredJobs`. The candidates are read in a transaction of their own,
-- and each is recovered in its own, which may find the job changed; a job that is gone is skipped.
use ai_research_workbench.Common.{
  ℕ, Bool, true, false, ◌&&◌, ◌||◌, Option, none, some, List, [], ◌∷◌, map, take, filter, max, ◌==◌,
  leb, ltb, nat_eq, if◌then◌else◌, Text, text, Text_eq,
}
use ai_research_workbench.Common.Number.{JsNumber, whole}
use ai_research_workbench.Common.Outcome.{
  Outcome, ok, throw, Thrown, error, integer_out_of_range, app_error, not_found,
}
use ai_research_workbench.Domain.Jobs.{
  JobStatus, JobStatus_eq, retry_wait, cancellation_requested, dead_letter, unknown,
  assert_job_transition, JobErrorClass,
}
use ai_research_workbench.Store.{
  Tx, pure, ◌>>=◌, ◌>>◌, guard, lift, gets, write_job, write_event, update_attempt, find_job,
  with_transaction,
}
use ai_research_workbench.Store.Tables.{Db, JobRow, lease_expired, EventType}
use ai_research_workbench.JobQueue.Config.{bounded_integer, bounded_run_ids}
use ai_research_workbench.JobQueue.Claim.{run_selected}
use ai_research_workbench.JobQueue.Lease.{transition_event, retry_delay, fits_integer, or_zero}
use ai_research_workbench.JobQueue.Lock.{lock_job_project_first}
use ai_research_workbench.JobQueue.Linked.{
  when, is_active, reconcile_linked_job_failure, reconcile_linked_job_cancellation,
}
use ai_research_workbench.JobQueue.Rows.{recovered_row}

-- `lease_expires_at <= NOW()`
unfoldable pub lease_expired_at : Option ℕ → ℕ → Bool
lease_expired_at none now = false
lease_expired_at (some expiry) now = leb expiry now

unfoldable pub recovery_target : JobRow → JobStatus
recovery_target job =
    if job.status == cancellation_requested
    then JobStatus.cancelled
    else if ltb job.attempts job.max_attempts
    then retry_wait
    else dead_letter

-- The body of the transaction of one candidate, once its job is found to be expired.
unfoldable pub recover_locked_job : JsNumber → JobRow → Tx JobRow
recover_locked_job drawn job = do
  let target = recovery_target job
  lift (assert_job_transition job.status target)
  delay ← lift (retry_delay target (whole (max 1 job.attempts)) job.retry_policy none drawn)
  now ← gets (λ db. db.now)
  let updated = recovered_row now target (or_zero delay) job
  write_job updated
  guard (fits_integer delay) (error integer_out_of_range)
  update_attempt job.id job.attempts (λ a. record a {
    status = lease_expired;
    error_class = some (if target == JobStatus.cancelled then JobErrorClass.cancelled else unknown);
    sanitized_error = some (text "Worker lease expired before completion.");
    retry_after_ms = delay;
    completed_at = some now;
  })
  write_event (transition_event job EventType.job_lease_expired target job.lease_owner)
  when (target == dead_letter) (
      reconcile_linked_job_failure updated unknown (text "Worker lease expired before completion."))
  when (target == JobStatus.cancelled) (
      reconcile_linked_job_cancellation updated
        (text "Cancellation completed after worker lease expiry"))
  pure updated

unfoldable pub is_recoverable : Option (List Text) → ℕ → JobRow → Bool
unfolding lease_expired_at is_active run_selected
is_recoverable run_ids now job =
    lease_expired_at job.lease_expires_at now
    && run_selected run_ids job.run_id
    && is_active job.status

unfoldable pub recover_current :
    Option (List Text) → JsNumber → ℕ → Option JobRow → Tx (Option JobRow)
recover_current run_ids drawn now none = pure none
recover_current run_ids drawn now (some job) =
    if is_recoverable run_ids now job
    then (recover_locked_job drawn job >>= λ updated. pure (some updated))
    else pure none

-- The transaction of one candidate; `none` where there is nothing to recover any more.
unfoldable pub recover_job : Option (List Text) → JsNumber → Text → Tx (Option JobRow)
recover_job run_ids drawn job_id = do
  locked ← lock_job_project_first job_id
  current ← gets (λ db. find_job locked.id db.jobs)
  now ← gets (λ db. db.now)
  recover_current run_ids drawn now current

-- The `catch` clause: NOT_FOUND skips the candidate, and any other error ends the call.
unfoldable pub is_not_found : Thrown → Bool
is_not_found (app_error status not_found) = true
is_not_found _ = false

unfoldable pub add_recovered : Option JobRow → List JobRow → List JobRow
add_recovered none rows = rows
add_recovered (some row) rows = row ∷ rows

abbrev pub add_result : Option JobRow → Outcome (List JobRow) → Outcome (List JobRow)
add_result recovered (ok rows) = ok (add_recovered recovered rows)
add_result recovered (throw e) = throw e

-- What the loop gives with a candidate's transaction and, in case it is reached, the rest of the loop.
unfoldable pub after_candidate :
    Outcome (Option JobRow) → Db → Outcome (List JobRow) × Db → Outcome (List JobRow) × Db
after_candidate (ok recovered) db others = (add_result recovered others.0, others.1)
after_candidate (throw e) db others = if is_not_found e then others else (throw e, db)

-- The loop over the candidates; `draw` is the random number drawn for each. What earlier
-- candidates committed stays committed when a later one throws.
unfoldable pub recover_all :
    Option (List Text) → (Text → JsNumber) → List Text → Db → Outcome (List JobRow) × Db
recover_all run_ids draw [] db = (ok [], db)
recover_all run_ids draw (job_id ∷ rest) db =
    let r = with_transaction (recover_job run_ids (draw job_id) job_id) db in
    after_candidate r.0 r.1 (recover_all run_ids draw rest r.1)

module _ (id_le : Text → Text → Bool) where
  -- ORDER BY lease_expires_at, id, over rows whose lease has expired.
  expires_before : JobRow → JobRow → Bool
  expires_before a b = elim a.lease_expires_at [
    | none ↦ false
    | some s ↦ elim b.lease_expires_at [
      | none ↦ true
      | some t ↦ ltb s t || nat_eq s t && id_le a.id b.id
    ]
  ]

  insert_expired : JobRow → List JobRow → List JobRow
  insert_expired j [] = j ∷ []
  insert_expired j (k ∷ ks) =
      let rest = insert_expired j ks in if expires_before j k then j ∷ k ∷ ks else k ∷ rest

  order_expired : List JobRow → List JobRow
  order_expired [] = []
  order_expired (j ∷ js) = insert_expired j (order_expired js)

  unfoldable pub expired_candidates : ℕ → ℕ → Option (List Text) → List JobRow → List Text
  unfolding order_expired insert_expired expires_before is_recoverable
  expired_candidates limit now run_ids jobs =
      map (λ j. j.id) (take limit (order_expired (filter (is_recoverable run_ids now) jobs)))

unfoldable pub recover_validated :
    (Text → Text → Bool)
    → (Text → JsNumber)
    → Outcome ℕ
    → Outcome (Option (List Text))
    → Db
    → Outcome (List JobRow) × Db
recover_validated id_le draw (throw e) ids db = (throw e, db)
recover_validated id_le draw (ok limit) (throw e) db = (throw e, db)
recover_validated id_le draw (ok limit) (ok run_ids) db =
    recover_all run_ids draw (expired_candidates id_le limit db.now run_ids db.jobs) db

-- With an empty list of runs no candidate is selected, which is the early return.
unfoldable pub recover_expired_jobs :
    (Text → Text → Bool)
    → (Text → JsNumber)
    → JsNumber
    → Option (List Text)
    → Db
    → Outcome (List JobRow) × Db
recover_expired_jobs id_le draw limit run_ids db =
    recover_validated id_le draw (bounded_integer limit 1 1000) (bounded_run_ids run_ids) db
