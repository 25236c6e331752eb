-- ===== src/JobQueue/Invariant/Operators.antt =====
-- Cancellation requests, manual retries, submissions and recovery keep the tables good.
use ai_research_workbench.Common.{
  ℕ, ◌≡◌, ◌⊎◌, refl, Bool, true, ◌||◌, Option, none, some, List, ◌==◌, arith, Text,
}
use ai_research_workbench.Common.Number.{JsNumber}
use ai_research_workbench.Domain.Jobs.{
  JobStatus, JobStatus_eq, status_eq, queued, retry_wait, cancellation_requested, dead_letter,
  can_transition_job, is_terminal_job_status,
}
use ai_research_workbench.Store.{pure}
use ai_research_workbench.Store.Tables.{JobRow, AuditAction}
use ai_research_workbench.JobQueue.Cancel.{
  write_operator_audit, cancellation_target, cancel_locked_job, request_job_cancellation,
  manual_retry_job,
}
use ai_research_workbench.JobQueue.Lease.{or_zero}
use ai_research_workbench.JobQueue.Linked.{is_active}
use ai_research_workbench.JobQueue.Recover.{
  recovery_target, recover_locked_job, is_recoverable, recover_current, recover_job,
}
use ai_research_workbench.JobQueue.Rows.{cancel_requested_row, retried_row, recovered_row}
use ai_research_workbench.JobQueue.Invariant.{
  IsValid, Spec, True, Found, Spec-bind, Spec-pure, Spec-lift, Spec-guard, Spec-if, Spec-when,
  Spec-write_job, Spec-write_event, Spec-update_attempt, Spec-write_audit_event, Spec-find_job,
}
use ai_research_workbench.JobQueue.Invariant.Locks.{Spec-read, Spec-lock_job_project_first}
use ai_research_workbench.JobQueue.Invariant.Linked.{
  Spec-reconcile_linked_job_failure, Spec-reconcile_linked_job_cancellation,
}
use ai_research_workbench.JobQueue.Invariant.Leases.{asserted}
use ai_research_workbench.JobQueue.Invariant.Rows.{
  cancel_requested_row-IsValid, retried_row-IsValid, recovered_row-IsValid,
}

Spec-write_operator_audit :
    (audit : Option Text) (action : AuditAction) (j : JobRow)
    → Spec (write_operator_audit audit action j) True
unfolding write_operator_audit
Spec-write_operator_audit none action j = Spec-pure True tt tt
Spec-write_operator_audit (some label) action j = Spec-write_audit_event _

-- A request that a job in another status can follow ends it or finds its lease held.
cancellation_targets :
    (s : JobStatus)
    → can_transition_job s (cancellation_target s) ≡ true
    → (cancellation_target s ≡ JobStatus.cancelled)
      ⊎ ((cancellation_target s ≡ cancellation_requested) × (is_active s ≡ true))
unfolding can_transition_job cancellation_target is_active status_eq
cancellation_targets s h = ground arith

Spec-cancel_locked_job :
    (by : Text) (audit : Option Text) (reconcile : Bool) (j : JobRow)
    → IsValid j
    → Spec (cancel_locked_job by audit reconcile j) IsValid
unfolding cancel_locked_job
Spec-cancel_locked_job by audit reconcile job v =
    let target = cancellation_target job.status in
    Spec-bind (Spec-lift _) λ u allowed. Spec-bind (Spec-read _) λ now _.
      let permitted = asserted job.status target u allowed in
      let valid =
        cancel_requested_row-IsValid now job v target (cancellation_targets job.status permitted) in
      Spec-bind (Spec-write_job _ valid) λ _ _. Spec-bind (Spec-write_event _ permitted) λ _ _.
        Spec-bind (Spec-write_operator_audit audit _ job) λ _ _.
          Spec-bind
            (Spec-when _ _
              (Spec-reconcile_linked_job_cancellation (cancel_requested_row now target job) _))
            λ _ _. Spec-pure IsValid (cancel_requested_row now target job) valid

pub Spec-request_job_cancellation :
    (id by : Text) (audit : Option Text) (reconcile : Bool)
    → Spec (request_job_cancellation id by audit reconcile) IsValid
unfolding request_job_cancellation
Spec-request_job_cancellation id by audit reconcile =
    Spec-bind (Spec-lock_job_project_first id) λ job v.
      Spec-if (is_terminal_job_status job.status || job.status == cancellation_requested) (pure job)
        (cancel_locked_job by audit reconcile job) (λ _. Spec-pure IsValid job v)
        (λ _. Spec-cancel_locked_job by audit reconcile job v)

pub Spec-manual_retry_job :
    (id : Text) (audit : Option Text) → Spec (manual_retry_job id audit) IsValid
unfolding manual_retry_job
Spec-manual_retry_job id audit = Spec-bind (Spec-lock_job_project_first id) λ job v.
    Spec-bind (Spec-guard _ _) λ _ _. Spec-bind (Spec-guard _ _) λ _ _.
      Spec-bind (Spec-lift _) λ u allowed. Spec-bind (Spec-read _) λ now _.
        let valid = retried_row-IsValid now job v in
        Spec-bind (Spec-write_job _ valid) λ _ _.
          Spec-bind (Spec-write_event _ (asserted job.status queued u allowed)) λ _ _.
            Spec-bind (Spec-write_operator_audit audit _ job)
              λ _ _. Spec-pure IsValid (retried_row now job) valid

recovery_targets :
    (j : JobRow)
    → (recovery_target j ≡ retry_wait)
      ⊎ (recovery_target j ≡ JobStatus.cancelled)
      ⊎ (recovery_target j ≡ dead_letter)
unfolding recovery_target status_eq
recovery_targets j = ground arith

Spec-recover_locked_job :
    (drawn : JsNumber) (j : JobRow) → IsValid j → Spec (recover_locked_job drawn j) IsValid
unfolding recover_locked_job
Spec-recover_locked_job drawn job v =
    let target = recovery_target job in
    Spec-bind (Spec-lift _) λ u allowed. Spec-bind (Spec-lift _) λ delay _.
      Spec-bind (Spec-read _) λ now _.
        let valid = recovered_row-IsValid now job v target (or_zero delay) (recovery_targets job) in
        let updated = recovered_row now target (or_zero delay) job in
        Spec-bind (Spec-write_job _ valid) λ _ _. Spec-bind (Spec-guard _ _) λ _ _.
          Spec-bind (Spec-update_attempt _ _ _) λ _ _.
            Spec-bind (Spec-write_event _ (asserted job.status target u allowed)) λ _ _.
              Spec-bind (Spec-when _ _ (Spec-reconcile_linked_job_failure updated _ _)) λ _ _.
                Spec-bind (Spec-when _ _ (Spec-reconcile_linked_job_cancellation updated _))
                  λ _ _. Spec-pure IsValid updated valid

Spec-recover_current :
    (run_ids : Option (List Text)) (drawn : JsNumber) (now : ℕ) (o : Option JobRow)
    → Found o
    → Spec (recover_current run_ids drawn now o) True
unfolding recover_current
Spec-recover_current run_ids drawn now none f = Spec-pure True none tt
Spec-recover_current run_ids drawn now (some j) f =
    Spec-if (is_recoverable run_ids now j) _ _
      (λ _.
        Spec-bind (Spec-recover_locked_job drawn j (f j refl))
          λ updated _. Spec-pure True (some updated) tt)
      (λ _. Spec-pure True none tt)

pub Spec-recover_job :
    (run_ids : Option (List Text)) (drawn : JsNumber) (id : Text)
    → Spec (recover_job run_ids drawn id) True
unfolding recover_job
Spec-recover_job run_ids drawn id = Spec-bind (Spec-lock_job_project_first id) λ locked _.
    Spec-bind (Spec-find_job locked.id)
      λ current f. Spec-bind (Spec-read _) λ now _. Spec-recover_current run_ids drawn now current f
