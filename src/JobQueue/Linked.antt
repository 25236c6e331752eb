-- ===== src/JobQueue/Linked.antt =====
-- lib/services/jobs.ts: what the end of a job does to the run and the stage that it is linked to.
use ai_research_workbench.Common.{
  ℕ, ◌+◌, Bool, true, false, not, ◌&&◌, Option, none, some, List, [], ◌∷◌, map, any, ◌==◌, includes,
  if◌then◌else◌, Text, text, text_eq,
}
use ai_research_workbench.Common.Outcome.{ok}
use ai_research_workbench.Domain.Jobs.{
  JobStatus, JobStatus_eq, JobErrorClass, claimed, cancellation_requested,
}
use ai_research_workbench.Domain.Jobs
use ai_research_workbench.Domain.Runs.{
  RunStatus, RunStatus_eq, cancelling, completed, StageStatus, StageStatus_eq, pending,
  can_transition_research_run, can_transition_run_stage,
}
use ai_research_workbench.Store.{
  Tx, pure, ◌>>=◌, ◌>>◌, gets, write_run, write_stage, write_audit_event,
}
use ai_research_workbench.Store.Tables.{
  JobRow, RunRow, StageRow, run_stage_job_failed, research_run_cancellation_acknowledged,
}
use ai_research_workbench.JobQueue.Lock.{lock_linked_research_state}

-- `if (test) …`
unfoldable pub when : Bool → Tx (Unit {0}) → Tx (Unit {0})
when true m = m
when false m = pure tt

unfoldable pub failed_stage : ℕ → JobErrorClass → Text → StageRow → StageRow
failed_stage now error_class message s = record s {
  status = StageStatus.failed;
  error_class = some error_class;
  sanitized_error = some message;
  completed_at = some now;
  updated_at = now;
  version = s.version + 1;
}

unfoldable pub failed_run : ℕ → Text → RunRow → RunRow
failed_run now message r = record r {
  status = RunStatus.failed;
  failure_reason = some message;
  completed_at = some now;
  updated_at = now;
  version = r.version + 1;
}

unfoldable pub reconcile_failure :
    Option (RunRow × Option StageRow) → JobErrorClass → Text → Tx (Unit {0})
unfolding failed_stage failed_run
reconcile_failure none error_class message = pure tt
reconcile_failure (some (run, none)) error_class message = pure tt
reconcile_failure (some (run, some stage)) error_class message =
    when
      (includes (StageStatus.queued ∷ StageStatus.running ∷ []) stage.status
        && can_transition_run_stage stage.status StageStatus.failed)
      (do
        now ← gets (λ db. db.now)
        write_stage (failed_stage now error_class message stage)
        when
            (not (run.status == RunStatus.failed)
              && can_transition_research_run run.status RunStatus.failed)
            (write_run (failed_run now message run))
        write_audit_event (record {
          project_id = some run.project_id;
          actor_label = text "Durable job reconciler";
          action = run_stage_job_failed;
          resource_id = stage.id;
        }))

unfoldable pub reconcile_linked_job_failure : JobRow → JobErrorClass → Text → Tx (Unit {0})
unfolding reconcile_failure
reconcile_linked_job_failure job error_class message = do
  linked ← lock_linked_research_state job
  reconcile_failure linked error_class message

-- COALESCE(cancelled_by, $2)
or_else : Option Text → Text → Text
or_else none t = t
or_else (some s) t = s

unfoldable pub cancelling_run : ℕ → Text → RunRow → RunRow
unfolding or_else
cancelling_run now requested_by r = record r {
  status = cancelling;
  cancelled_by = some (or_else r.cancelled_by requested_by);
  completed_at = none;
  updated_at = now;
  version = r.version + 1;
}

unfoldable pub cancelled_run : ℕ → RunRow → RunRow
cancelled_run now r = record r {
  status = RunStatus.cancelled;
  completed_at = some now;
  updated_at = now;
  version = r.version + 1;
}

unfoldable pub cancelled_stage : ℕ → StageRow → StageRow
cancelled_stage now s = record s {
  status = StageStatus.cancelled;
  completed_at = some now;
  updated_at = now;
  version = s.version + 1;
}

-- PENDING, QUEUED or RUNNING.
unfoldable pub is_open_stage : StageStatus → Bool
is_open_stage = includes (pending ∷ StageStatus.queued ∷ StageStatus.running ∷ [])

unfoldable pub cancel_linked_stage : Option StageRow → Tx (Unit {0})
unfolding cancelled_stage is_open_stage
cancel_linked_stage none = pure tt
cancel_linked_stage (some stage) =
    when (is_open_stage stage.status && can_transition_run_stage stage.status StageStatus.cancelled)
      (do
        now ← gets (λ db. db.now)
        write_stage (record (cancelled_stage now stage) {
          error_class = some JobErrorClass.cancelled;
          sanitized_error = some (text "The linked durable job was cancelled.");
        }))

is_run : Option Text → Text → Bool
is_run none id = false
is_run (some run_id) id = text_eq run_id id

-- CLAIMED, RUNNING or CANCELLATION_REQUESTED.
unfoldable pub is_active : JobStatus → Bool
is_active = includes (claimed ∷ Jobs.running ∷ cancellation_requested ∷ [])

unfoldable pub has_active_job : Text → List JobRow → Bool
unfolding is_run is_active
has_active_job run_id = any (λ j. is_run j.run_id run_id && is_active j.status)

-- Every open stage of the run.
unfoldable pub cancel_open_stages : ℕ → Text → List StageRow → List StageRow
unfolding cancelled_stage is_open_stage
cancel_open_stages now run_id =
    map
      (λ s. if text_eq s.run_id run_id && is_open_stage s.status then cancelled_stage now s else s)

unfoldable pub finish_cancellation : RunRow → Bool → Tx (Unit {0})
unfolding has_active_job cancel_open_stages cancelled_run
finish_cancellation run is_cancelling = do
  active ← gets (λ db. has_active_job run.id db.jobs)
  when (not active && is_cancelling) (do
    now ← gets (λ db. db.now)
    (λ db. ok (tt, record db { stages = cancel_open_stages now run.id db.stages }))
    write_run (cancelled_run now run)
    write_audit_event (record {
      project_id = some run.project_id;
      actor_label = text "Durable job reconciler";
      action = research_run_cancellation_acknowledged;
      resource_id = run.id;
    }))

-- The run as the first UPDATE leaves it.
unfoldable pub requested_run : ℕ → Text → RunRow → RunRow
unfolding cancelling_run
requested_run now requested_by run =
    if not (run.status == cancelling) && can_transition_research_run run.status cancelling
    then cancelling_run now requested_by run
    else run

unfoldable pub reconcile_cancellation :
    Option (RunRow × Option StageRow) → JobStatus → Text → Tx (Unit {0})
unfolding requested_run cancel_linked_stage finish_cancellation
reconcile_cancellation none status requested_by = pure tt
reconcile_cancellation (some (run, stage)) status requested_by =
    when (not (includes (completed ∷ RunStatus.failed ∷ RunStatus.cancelled ∷ []) run.status)) (do
      now ← gets (λ db. db.now)
      let requested = requested_run now requested_by run
      write_run requested
      when (status == JobStatus.cancelled) (do
        cancel_linked_stage stage
        finish_cancellation requested (requested.status == cancelling)))

unfoldable pub reconcile_linked_job_cancellation : JobRow → Text → Tx (Unit {0})
unfolding reconcile_cancellation
reconcile_linked_job_cancellation job requested_by = do
  linked ← lock_linked_research_state job
  reconcile_cancellation linked job.status requested_by
