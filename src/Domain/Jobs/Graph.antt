-- ===== src/Domain/Jobs/Graph.antt =====
-- The transition diagram of a job: which statuses a sequence of permitted transitions reaches.
use ai_research_workbench.Common.{◌≡◌, ◌⊎◌, inl, inr, true, arith, refl}
use ai_research_workbench.Domain.Jobs.{
  JobStatus, queued, cancellation_requested, failed, dead_letter, can_transition_job,
  is_terminal_job_status,
}

infix 40 ◌⟶*◌
pub data ◌⟶*◌ : JobStatus → JobStatus → Type 0 where
  here : {s : JobStatus} → s ⟶* s
  then : {s t u : JobStatus} → can_transition_job s t ≡ true → t ⟶* u → s ⟶* u

-- Where a cancellation has been requested or is done, nothing but that can follow.
abbrev Cancelling : JobStatus → Type 0
Cancelling s = (s ≡ cancellation_requested) ⊎ (s ≡ JobStatus.cancelled)

step-Cancelling :
    (s t : JobStatus) → can_transition_job s t ≡ true → Cancelling s → t ≡ JobStatus.cancelled
unfolding can_transition_job
step-Cancelling s t h c = ground arith

reach-Cancelling : {s t : JobStatus} → s ⟶* t → Cancelling s → Cancelling t
reach-Cancelling here c = c
reach-Cancelling (then {s} {t} h r) c = reach-Cancelling r (inr (step-Cancelling s t h c))

-- From a requested cancellation, permitted transitions lead nowhere but to CANCELLED: a job whose
-- cancellation was requested neither succeeds nor fails nor goes back to the queue.
pub cancellation_final :
    {s : JobStatus}
    → cancellation_requested ⟶* s
    → (s ≡ cancellation_requested) ⊎ (s ≡ JobStatus.cancelled)
cancellation_final r = reach-Cancelling r (inl refl)

-- CANCELLED and SUCCEEDED are left by no permitted transition, and FAILED and DEAD_LETTER only
-- to QUEUED.
pub terminal_exits :
    (s t : JobStatus)
    → is_terminal_job_status s ≡ true
    → can_transition_job s t ≡ true
    → (t ≡ queued) × ((s ≡ failed) ⊎ (s ≡ dead_letter))
unfolding can_transition_job is_terminal_job_status
terminal_exits s t h k = ground arith
