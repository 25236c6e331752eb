-- ===== src/JobQueue/Lease.antt =====
-- lib/services/jobs.ts: the operations of the worker that holds the lease of a job. The checks that
-- the source makes before it opens the transaction stand at the head of the body.
use ai_research_workbench.Common.{
  ℕ, Bool, true, leb, Option, none, some, List, [], ◌∷◌, ◌==◌, if◌then◌else◌, Text, text,
}
use ai_research_workbench.Common.Number.{JsNumber, whole}
use ai_research_workbench.Common.Outcome.{Outcome, ok, throw, error, integer_out_of_range}
use ai_research_workbench.Common.Outcome
use ai_research_workbench.Domain.Jobs.{
  JobStatus, JobStatus_eq, claimed, running, retry_wait, cancellation_requested, succeeded, failed,
  dead_letter, JobErrorClass, assert_job_transition,
}
use ai_research_workbench.Domain.RetryPolicy.{
  PolicyValue, policy_value, parse_job_retry_policy, calculate_retry_delay_ms, failure_job_status,
}
use ai_research_workbench.Domain.JobErrors.{sanitize_job_error}
use ai_research_workbench.Store.{
  Tx, pure, ◌>>=◌, ◌>>◌, guard, lift, gets, write_job, write_event, update_attempt,
}
use ai_research_workbench.Store.Tables.{
  JobRow, JobEvent, job_status, EventType, job_started, job_succeeded, job_retry_scheduled,
  job_failed, job_cancelled, job_lease_released,
}
use ai_research_workbench.JobQueue.Config.{
  output, bounded_integer, bounded_text, serialize_job_reference,
}
use ai_research_workbench.JobQueue.Lock.{lock_owned_job}
use ai_research_workbench.JobQueue.Linked.{
  when, reconcile_linked_job_failure, reconcile_linked_job_cancellation,
}
use ai_research_workbench.JobQueue.Rows.{
  started_row, heartbeat_row, completed_row, failed_row, acknowledged_row, released_row,
}

-- The statuses under which a worker holds a lease.
abbrev pub leased_statuses : List JobStatus
leased_statuses = claimed ∷ running ∷ cancellation_requested ∷ []

abbrev pub transition_event : JobRow → EventType → JobStatus → Option Text → JobEvent
transition_event job type to worker = record {
  job_id = job.id;
  event_type = type;
  from_status = some job.status;
  to_status = some to;
  worker_id = worker;
}

unfoldable pub start_job : Text → Text → Option ℕ → Tx JobRow
start_job job_id worker_id expected_version = do
  worker ← lift (bounded_text worker_id 500)
  job ← lock_owned_job job_id worker (claimed ∷ []) expected_version
  lift (assert_job_transition job.status running)
  now ← gets (λ db. db.now)
  write_job (started_row now job)
  update_attempt job.id job.attempts (λ a. record a { status = job_status running })
  write_event (transition_event job job_started running (some worker_id))
  pure (started_row now job)

unfoldable pub heartbeat_job : Text → Text → JsNumber → Tx JobRow
heartbeat_job job_id worker_id lease_duration = do
  worker ← lift (bounded_text worker_id 500)
  lease_ms ← lift (bounded_integer lease_duration 1 86400000)
  job ← lock_owned_job job_id worker leased_statuses none
  now ← gets (λ db. db.now)
  write_job (heartbeat_row now lease_ms job)
  pure (heartbeat_row now lease_ms job)

-- `hash` is SHA-256 of the canonical JSON text (node:crypto); `candidate` is what
-- `JSON.stringify` made of the output.
unfoldable pub complete_job : (Text → Text) → Text → Text → Option Text → Tx JobRow
complete_job hash job_id worker_id candidate = do
  worker ← lift (bounded_text worker_id 500)
  reference ← lift (serialize_job_reference candidate output)
  job ← lock_owned_job job_id worker (running ∷ []) none
  lift (assert_job_transition job.status succeeded)
  now ← gets (λ db. db.now)
  write_job (completed_row now reference (hash reference) job)
  update_attempt job.id job.attempts
      (λ a. record a { status = job_status succeeded; completed_at = some now })
  write_event (transition_event job job_succeeded succeeded (some worker))
  pure (completed_row now reference (hash reference) job)

-- The delay of a retry, drawn only for RETRY_WAIT.
unfoldable pub retry_delay :
    JobStatus → JsNumber → PolicyValue → Option JsNumber → JsNumber → Outcome (Option ℕ)
retry_delay target attempt stored retry_after drawn =
    if target == retry_wait
    then Outcome.◌>>=◌ (parse_job_retry_policy stored) (λ policy.
      Outcome.◌>>=◌ (calculate_retry_delay_ms attempt (policy_value policy) retry_after drawn)
        (λ delay. ok (some delay)))
    else ok none

-- `retryDelayMs ?? 0`
unfoldable pub or_zero : Option ℕ → ℕ
or_zero none = 0
or_zero (some n) = n

-- `retry_after_ms` is an INTEGER, and an UPDATE with a larger number fails.
unfoldable pub fits_integer : Option ℕ → Bool
fits_integer none = true
fits_integer (some n) = leb n 2147483647

-- The status RETRY_WAIT is announced as a scheduled retry, the others as a failure.
unfoldable pub failure_event : JobStatus → EventType
failure_event target = if target == retry_wait then job_retry_scheduled else job_failed

unfoldable pub fail_job :
    Text → Text → JobErrorClass → Text → Option JsNumber → JsNumber → Tx JobRow
fail_job job_id worker_id error_class message retry_after drawn = do
  worker ← lift (bounded_text worker_id 500)
  job ← lock_owned_job job_id worker (claimed ∷ running ∷ []) none
  target ← lift (failure_job_status error_class (whole job.attempts) (whole job.max_attempts))
  lift (assert_job_transition job.status target)
  delay ← lift (retry_delay target (whole job.attempts) job.retry_policy retry_after drawn)
  now ← gets (λ db. db.now)
  let sanitized = sanitize_job_error message
  let updated = failed_row now target (or_zero delay) error_class sanitized job
  write_job updated
  guard (fits_integer delay) (error integer_out_of_range)
  update_attempt job.id job.attempts (λ a. record a {
    status = job_status target;
    error_class = some error_class;
    sanitized_error = some sanitized;
    retry_after_ms = delay;
    completed_at = some now;
  })
  write_event (transition_event job (failure_event target) target (some worker))
  when (if target == failed then true else target == dead_letter)
      (reconcile_linked_job_failure updated error_class sanitized)
  pure updated

unfoldable pub acknowledge_job_cancellation : Text → Text → Tx JobRow
acknowledge_job_cancellation job_id worker_id = do
  worker ← lift (bounded_text worker_id 500)
  job ← lock_owned_job job_id worker (cancellation_requested ∷ []) none
  lift (assert_job_transition job.status JobStatus.cancelled)
  now ← gets (λ db. db.now)
  let updated = acknowledged_row now job
  write_job updated
  update_attempt job.id job.attempts (λ a. record a {
    status = job_status JobStatus.cancelled;
    error_class = some JobErrorClass.cancelled;
    completed_at = some now;
  })
  write_event (transition_event job job_cancelled JobStatus.cancelled (some worker))
  reconcile_linked_job_cancellation updated (text "Cancellation acknowledged by worker")
  pure updated

-- The status in which a released job is left.
unfoldable pub release_target : JobStatus → JobStatus
release_target status = if status == cancellation_requested then JobStatus.cancelled else retry_wait

unfoldable pub release_event : JobStatus → EventType
release_event target = if target == JobStatus.cancelled then job_cancelled else job_lease_released

unfoldable pub release_job_lease : Text → Text → Tx JobRow
release_job_lease job_id worker_id = do
  worker ← lift (bounded_text worker_id 500)
  job ← lock_owned_job job_id worker leased_statuses none
  let target = release_target job.status
  lift (assert_job_transition job.status target)
  now ← gets (λ db. db.now)
  let updated = released_row now target job
  write_job updated
  update_attempt job.id job.attempts
      (λ a. record a { status = job_status target; completed_at = some now })
  write_event (transition_event job (release_event target) target (some worker))
  when (target == JobStatus.cancelled) (
      reconcile_linked_job_cancellation updated
        (text "Cancellation completed during worker shutdown"))
  pure updated
