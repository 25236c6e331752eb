-- ===== src/JobQueue/Invariant/Linked.antt =====
-- What an operation does to the linked run and stage writes no job and no event.
use ai_research_workbench.Common.{refl, Bool, Option, none, some, Text}
use ai_research_workbench.Common.Outcome.{conflict, job_run_link_broken}
use ai_research_workbench.Domain.Jobs.{JobStatus, JobErrorClass}
use ai_research_workbench.Store.Tables.{JobRow, RunRow, StageRow}
use ai_research_workbench.JobQueue.Lock.{find_linked_stage, lock_linked, lock_linked_research_state}
use ai_research_workbench.JobQueue.Linked.{
  reconcile_failure, reconcile_linked_job_failure, cancel_linked_stage, cancel_open_stages,
  finish_cancellation, reconcile_cancellation, reconcile_linked_job_cancellation, requested_run,
}
use ai_research_workbench.JobQueue.Invariant.{
  Spec, True, Spec-bind, Spec-pure, Spec-when, Spec-quiet, Spec-write_run, Spec-write_stage,
  Spec-write_audit_event,
}
use ai_research_workbench.JobQueue.Invariant.Locks.{Spec-read, Spec-any_row}

Spec-find_linked_stage :
    (run_id : Text) (stage_id : Option Text) → Spec (find_linked_stage run_id stage_id) True
unfolding find_linked_stage
Spec-find_linked_stage run_id none = Spec-pure True none tt
Spec-find_linked_stage run_id (some stage_id) = Spec-bind (Spec-read _) λ stage _.
    Spec-bind (Spec-any_row (conflict job_run_link_broken) stage)
      λ row _. Spec-pure True (some row) tt

Spec-lock_linked : (run_id stage_id : Option Text) → Spec (lock_linked run_id stage_id) True
unfolding lock_linked
Spec-lock_linked none stage_id = Spec-pure True none tt
Spec-lock_linked (some run_id) stage_id = Spec-bind (Spec-read _) λ found _.
    Spec-bind (Spec-any_row (conflict job_run_link_broken) found) λ run _.
      Spec-bind (Spec-find_linked_stage run_id stage_id)
        λ stage _. Spec-pure True (some (run, stage)) tt

Spec-reconcile_failure :
    (linked : Option (RunRow × Option StageRow)) (c : JobErrorClass) (message : Text)
    → Spec (reconcile_failure linked c message) True
unfolding reconcile_failure
Spec-reconcile_failure none c message = Spec-pure True tt tt
Spec-reconcile_failure (some (run, none)) c message = Spec-pure True tt tt
Spec-reconcile_failure (some (run, some stage)) c message = Spec-when _ _ (
    Spec-bind (Spec-read _) λ now _.
      Spec-bind (Spec-write_stage _)
        λ _ _. Spec-bind (Spec-when _ _ (Spec-write_run _)) λ _ _. Spec-write_audit_event _)

pub Spec-reconcile_linked_job_failure :
    (j : JobRow) (c : JobErrorClass) (message : Text)
    → Spec (reconcile_linked_job_failure j c message) True
unfolding reconcile_linked_job_failure lock_linked_research_state
Spec-reconcile_linked_job_failure j c message =
    Spec-bind (Spec-lock_linked _ _) λ linked _. Spec-reconcile_failure linked c message

Spec-cancel_linked_stage : (stage : Option StageRow) → Spec (cancel_linked_stage stage) True
unfolding cancel_linked_stage
Spec-cancel_linked_stage none = Spec-pure True tt tt
Spec-cancel_linked_stage (some stage) =
    Spec-when _ _ (Spec-bind (Spec-read _) λ now _. Spec-write_stage _)

Spec-finish_cancellation : (run : RunRow) (b : Bool) → Spec (finish_cancellation run b) True
unfolding finish_cancellation
Spec-finish_cancellation run b = Spec-bind (Spec-read _) λ active _. Spec-when _ _ (
    Spec-bind (Spec-read _) λ now _.
      Spec-bind
        (Spec-quiet (λ db. (record db { stages = cancel_open_stages now run.id db.stages }))
          (λ db. (refl, refl)))
        λ _ _. Spec-bind (Spec-write_run _) λ _ _. Spec-write_audit_event _)

Spec-reconcile_cancellation :
    (linked : Option (RunRow × Option StageRow)) (status : JobStatus) (by : Text)
    → Spec (reconcile_cancellation linked status by) True
unfolding reconcile_cancellation
Spec-reconcile_cancellation none status by = Spec-pure True tt tt
Spec-reconcile_cancellation (some (run, stage)) status by = Spec-when _ _ (
    Spec-bind (Spec-read _) λ now _. Spec-bind (Spec-write_run _) λ _ _. Spec-when _ _ (
      Spec-bind (Spec-cancel_linked_stage stage)
        λ _ _. Spec-finish_cancellation (requested_run now by run) _))

pub Spec-reconcile_linked_job_cancellation :
    (j : JobRow) (by : Text) → Spec (reconcile_linked_job_cancellation j by) True
unfolding reconcile_linked_job_cancellation lock_linked_research_state
Spec-reconcile_linked_job_cancellation j by =
    Spec-bind (Spec-lock_linked _ _) λ linked _. Spec-reconcile_cancellation linked j.status by
