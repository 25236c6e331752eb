-- ===== src/JobQueue/Invariant/Leases.antt =====
-- The worker's operations keep the tables good.
use ai_research_workbench.Common.{ℕ, ◌≡◌, ◌⊎◌, true, Option, none, [], ◌∷◌, arith, includes, Text}
use ai_research_workbench.Common.Number.{JsNumber}
use ai_research_workbench.Common.Outcome.{ok}
use ai_research_workbench.Domain.Jobs.{
  JobStatus, JobStatus_eq, status_eq, claimed, running, retry_wait, cancellation_requested,
  succeeded, failed, dead_letter, JobErrorClass, assert_job_transition, can_transition_job,
}
use ai_research_workbench.Domain.RetryPolicy.{failure_job_status}
use ai_research_workbench.Domain.JobErrors.{sanitize_job_error}
use ai_research_workbench.JobQueue.Linked.{is_active}
use ai_research_workbench.JobQueue.Lease.{
  leased_statuses, start_job, heartbeat_job, complete_job, fail_job, or_zero,
  acknowledge_job_cancellation, release_target, release_job_lease,
}
use ai_research_workbench.JobQueue.Rows.{
  started_row, heartbeat_row, completed_row, failed_row, acknowledged_row, released_row,
}
use ai_research_workbench.JobQueue.Invariant.{
  IsValid, Spec, Spec-bind, Spec-pure, Spec-lift, Spec-guard, Spec-when, Spec-write_job,
  Spec-write_event, Spec-update_attempt,
}
use ai_research_workbench.JobQueue.Invariant.Locks.{Spec-read, Spec-lock_owned_job}
use ai_research_workbench.JobQueue.Invariant.Linked.{
  Spec-reconcile_linked_job_failure, Spec-reconcile_linked_job_cancellation,
}
use ai_research_workbench.JobQueue.Invariant.Rows.{
  started_row-IsValid, heartbeat_row-IsValid, completed_row-IsValid, failed_row-IsValid,
  acknowledged_row-IsValid, released_row-IsValid,
}

-- An assertion that returned: the transition is permitted.
pub asserted :
    (from to : JobStatus) (u : Unit {0})
    → assert_job_transition from to ≡ ok u
    → can_transition_job from to ≡ true
unfolding assert_job_transition
asserted from to u h = ground arith

only : (s t : JobStatus) → includes (s ∷ []) t ≡ true → t ≡ s
unfolding status_eq
only s t h = ground arith

pub Spec-start_job :
    (id worker : Text) (expected : Option ℕ) → Spec (start_job id worker expected) IsValid
unfolding start_job
Spec-start_job id worker expected = Spec-bind (Spec-lift _) λ owner _.
    Spec-bind (Spec-lock_owned_job id owner (claimed ∷ []) expected) λ job o.
      Spec-bind (Spec-lift _) λ u allowed. Spec-bind (Spec-read _) λ now _.
        let valid = started_row-IsValid now job o.valid (only claimed job.status o.status) in
        Spec-bind (Spec-write_job _ valid) λ _ _. Spec-bind (Spec-update_attempt _ _ _) λ _ _.
          Spec-bind (Spec-write_event _ (asserted job.status running u allowed))
            λ _ _. Spec-pure IsValid (started_row now job) valid

leased-is_active : (s : JobStatus) → includes leased_statuses s ≡ true → is_active s ≡ true
unfolding is_active
leased-is_active s h = h

pub Spec-heartbeat_job :
    (id worker : Text) (duration : JsNumber) → Spec (heartbeat_job id worker duration) IsValid
unfolding heartbeat_job
Spec-heartbeat_job id worker duration = Spec-bind (Spec-lift _) λ owner _.
    Spec-bind (Spec-lift _) λ ms _.
      Spec-bind (Spec-lock_owned_job id owner leased_statuses none) λ job o.
        Spec-bind (Spec-read _) λ now _.
          let valid =
            heartbeat_row-IsValid now job o.valid ms (leased-is_active job.status o.status) in
          Spec-bind (Spec-write_job _ valid)
            λ _ _. Spec-pure IsValid (heartbeat_row now ms job) valid

pub Spec-complete_job :
    (hash : Text → Text) (id worker : Text) (candidate : Option Text)
    → Spec (complete_job hash id worker candidate) IsValid
unfolding complete_job
Spec-complete_job hash id worker candidate = Spec-bind (Spec-lift _) λ owner _.
    Spec-bind (Spec-lift _) λ reference _.
      Spec-bind (Spec-lock_owned_job id owner (running ∷ []) none) λ job o.
        Spec-bind (Spec-lift _) λ u allowed. Spec-bind (Spec-read _) λ now _.
          let valid = completed_row-IsValid now job o.valid reference (hash reference) in
          Spec-bind (Spec-write_job _ valid) λ _ _. Spec-bind (Spec-update_attempt _ _ _) λ _ _.
            Spec-bind (Spec-write_event _ (asserted job.status succeeded u allowed))
              λ _ _. Spec-pure IsValid (completed_row now reference (hash reference) job) valid

failure_targets :
    (c : JobErrorClass) (a m : JsNumber) (t : JobStatus)
    → failure_job_status c a m ≡ ok t
    → (t ≡ retry_wait) ⊎ (t ≡ failed) ⊎ (t ≡ dead_letter)
unfolding failure_job_status
failure_targets c a m t h = ground arith

pub Spec-fail_job :
    (id worker : Text) (c : JobErrorClass) (message : Text) (after : Option JsNumber)
    (drawn : JsNumber)
    → Spec (fail_job id worker c message after drawn) IsValid
unfolding fail_job
Spec-fail_job id worker c message after drawn = Spec-bind (Spec-lift _) λ owner _.
    Spec-bind (Spec-lock_owned_job id owner (claimed ∷ running ∷ []) none) λ job o.
      Spec-bind (Spec-lift _) λ target t. Spec-bind (Spec-lift _) λ u allowed.
        Spec-bind (Spec-lift _) λ delay _. Spec-bind (Spec-read _) λ now _.
          let valid =
            failed_row-IsValid now job o.valid target (or_zero delay) c (sanitize_job_error message)
              (failure_targets c _ _ target t) in
          Spec-bind (Spec-write_job _ valid) λ _ _. Spec-bind (Spec-guard _ _) λ _ _.
            Spec-bind (Spec-update_attempt _ _ _) λ _ _.
              Spec-bind (Spec-write_event _ (asserted job.status target u allowed)) λ _ _.
                Spec-bind (Spec-when _ _ (Spec-reconcile_linked_job_failure _ _ _)) λ _ _.
                  Spec-pure IsValid
                    (failed_row now target (or_zero delay) c (sanitize_job_error message) job) valid

pub Spec-acknowledge_job_cancellation :
    (id worker : Text) → Spec (acknowledge_job_cancellation id worker) IsValid
unfolding acknowledge_job_cancellation
Spec-acknowledge_job_cancellation id worker = Spec-bind (Spec-lift _) λ owner _.
    Spec-bind (Spec-lock_owned_job id owner (cancellation_requested ∷ []) none) λ job o.
      Spec-bind (Spec-lift _) λ u allowed. Spec-bind (Spec-read _) λ now _.
        let valid = acknowledged_row-IsValid now job o.valid in
        Spec-bind (Spec-write_job _ valid) λ _ _. Spec-bind (Spec-update_attempt _ _ _) λ _ _.
          Spec-bind (Spec-write_event _ (asserted job.status JobStatus.cancelled u allowed)) λ _ _.
            Spec-bind (Spec-reconcile_linked_job_cancellation (acknowledged_row now job) _)
              λ _ _. Spec-pure IsValid (acknowledged_row now job) valid

release_targets :
    (s : JobStatus) → (release_target s ≡ retry_wait) ⊎ (release_target s ≡ JobStatus.cancelled)
unfolding release_target status_eq
release_targets s = ground arith

pub Spec-release_job_lease : (id worker : Text) → Spec (release_job_lease id worker) IsValid
unfolding release_job_lease
Spec-release_job_lease id worker = Spec-bind (Spec-lift _) λ owner _.
    Spec-bind (Spec-lock_owned_job id owner leased_statuses none) λ job o.
      Spec-bind (Spec-lift _) λ u allowed. Spec-bind (Spec-read _) λ now _.
        let target = release_target job.status in
        let valid = released_row-IsValid now job o.valid target (release_targets job.status) in
        Spec-bind (Spec-write_job _ valid) λ _ _. Spec-bind (Spec-update_attempt _ _ _) λ _ _.
          Spec-bind (Spec-write_event _ (asserted job.status target u allowed)) λ _ _.
            Spec-bind
              (Spec-when _ _
                (Spec-reconcile_linked_job_cancellation (released_row now target job) _))
              λ _ _. Spec-pure IsValid (released_row now target job) valid
