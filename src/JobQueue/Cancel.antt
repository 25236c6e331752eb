-- ===== src/JobQueue/Cancel.antt =====
-- lib/services/jobs.ts: what an operator does to a job, whoever holds its lease. `audit` is the
-- label of the operator whose request is audited, where there is one.
use ai_research_workbench.Common.{
  Bool, not, ◌||◌, Option, none, some, [], ◌∷◌, ◌==◌, includes, if◌then◌else◌, is_some, Text, text,
  text_eq,
}
use ai_research_workbench.Common.Outcome.{
  conflict, pipeline_stage_restart_required, job_not_retryable,
}
use ai_research_workbench.Domain.Jobs.{
  JobStatus, JobStatus_eq, queued, retry_wait, cancellation_requested, failed, dead_letter,
  assert_job_transition, is_terminal_job_status,
}
use ai_research_workbench.Store.{
  Tx, pure, ◌>>=◌, ◌>>◌, guard, lift, gets, write_job, write_event, write_audit_event,
}
use ai_research_workbench.Store.Tables.{JobRow, EventType, AuditAction}
use ai_research_workbench.JobQueue.Lease.{transition_event}
use ai_research_workbench.JobQueue.Lock.{truthy, lock_job_project_first}
use ai_research_workbench.JobQueue.Linked.{when, reconcile_linked_job_cancellation}
use ai_research_workbench.JobQueue.Rows.{cancel_requested_row, retried_row}

-- `if (audit) await writeAuditEvent(…)`
unfoldable pub write_operator_audit : Option Text → AuditAction → JobRow → Tx (Unit {0})
write_operator_audit none action job = pure tt
write_operator_audit (some label) action job = write_audit_event (record {
  project_id = job.project_id;
  actor_label = label;
  action = action;
  resource_id = job.id;
})

unfoldable pub cancellation_target : JobStatus → JobStatus
cancellation_target status =
    if includes (queued ∷ retry_wait ∷ []) status
    then JobStatus.cancelled
    else cancellation_requested

unfoldable pub cancel_locked_job : Text → Option Text → Bool → JobRow → Tx JobRow
cancel_locked_job requested_by audit reconcile job = do
  let target = cancellation_target job.status
  lift (assert_job_transition job.status target)
  now ← gets (λ db. db.now)
  let updated = cancel_requested_row now target job
  write_job updated
  write_event (transition_event job EventType.job_cancellation_requested target none)
  write_operator_audit audit AuditAction.job_cancellation_requested job
  when reconcile (reconcile_linked_job_cancellation updated requested_by)
  pure updated

-- `requestJobCancellationInTransaction`; `requestJobCancellation` is its transaction.
unfoldable pub request_job_cancellation : Text → Text → Option Text → Bool → Tx JobRow
request_job_cancellation job_id requested_by audit reconcile = do
  job ← lock_job_project_first job_id
  if is_terminal_job_status job.status || job.status == cancellation_requested
      then pure job
      else cancel_locked_job requested_by audit reconcile job

unfoldable pub pipeline_type : Text
unfolding text
pipeline_type = text "RESEARCH_PIPELINE_STAGE"

unfoldable pub manual_retry_job : Text → Option Text → Tx JobRow
manual_retry_job job_id audit = do
  job ← lock_job_project_first job_id
  guard (not (is_some (truthy job.run_stage_id) || text_eq job.job_type pipeline_type))
      (conflict pipeline_stage_restart_required)
  guard (includes (failed ∷ dead_letter ∷ []) job.status) (conflict job_not_retryable)
  lift (assert_job_transition job.status queued)
  now ← gets (λ db. db.now)
  let updated = retried_row now job
  write_job updated
  write_event (transition_event job EventType.job_manual_retry queued none)
  write_operator_audit audit AuditAction.job_manual_retry job
  pure updated
