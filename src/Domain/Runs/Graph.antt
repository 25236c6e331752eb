-- ===== src/Domain/Runs/Graph.antt =====
-- The transition diagrams of a run and of a stage.
use ai_research_workbench.Common.{◌≡◌, ◌⊎◌, inl, true, refl, arith}
use ai_research_workbench.Domain.Runs.{
  RunStatus, created, waiting_for_plan_approval, cancelling, StageStatus, succeeded, stale,
  can_transition_research_run, can_transition_run_stage,
}

infix 40 ◌⟶*◌
pub data ◌⟶*◌ : RunStatus → RunStatus → Type 0 where
  here : {s : RunStatus} → s ⟶* s
  then : {s t u : RunStatus} → can_transition_research_run s t ≡ true → t ⟶* u → s ⟶* u

-- The statuses before a run is first queued.
abbrev pub Unstarted : RunStatus → Type 0
Unstarted s = (s ≡ created) ⊎ (s ≡ waiting_for_plan_approval)

-- No run goes back to where its plan is not approved.
no_return :
    (s t : RunStatus)
    → can_transition_research_run s t ≡ true
    → Unstarted t
    → (s ≡ created) × (t ≡ waiting_for_plan_approval)
unfolding can_transition_research_run
no_return s t h u = ground arith

-- A run that has left CREATED and WAITING_FOR_PLAN_APPROVAL never returns to them.
pub started_forever : {s t : RunStatus} → s ⟶* t → ¬ Unstarted s → ¬ Unstarted t
started_forever here h u = h u
started_forever (then {s} {t} k r) h u = started_forever r (λ v. h (inl (no_return s t k v).0)) u

requeued :
    {s : RunStatus} → can_transition_research_run s RunStatus.queued ≡ true → s ⟶* RunStatus.running
unfolding can_transition_research_run
requeued h = then {t = RunStatus.queued} h (then {t = RunStatus.running} refl here)

-- From every status permitted transitions lead to RUNNING: no run is stuck for good.
pub always_restartable : (s : RunStatus) → s ⟶* RunStatus.running
unfolding can_transition_research_run
always_restartable created = requeued refl
always_restartable RunStatus.queued = then {t = RunStatus.running} refl here
always_restartable RunStatus.running = here
always_restartable cancelling = then {t = RunStatus.cancelled} refl (requeued refl)
always_restartable _ = requeued refl

-- A permitted move of a stage leaves SUCCEEDED only for STALE, enters SUCCEEDED only from RUNNING,
-- enters RUNNING only from QUEUED, and enters STALE only from SUCCEEDED.
pub stage_moves :
    (s t : StageStatus)
    → can_transition_run_stage s t ≡ true
    → (s ≡ succeeded → t ≡ stale)
      × (t ≡ succeeded → s ≡ StageStatus.running)
      × (t ≡ StageStatus.running → s ≡ StageStatus.queued)
      × (t ≡ stale → s ≡ succeeded)
unfolding can_transition_run_stage
stage_moves s t h = (λ e. ground arith, λ e. ground arith, λ e. ground arith, λ e. ground arith)
