-- ===== src/Domain/Runs.antt =====
-- lib/domain/research-runs.ts: the life of a research run and of a stage of it.
pub mod Graph
use ai_research_workbench.Common.{
  ℕ, ◌≡◌, ◌↔◌, Bool, true, List, [], ◌∷◌, Equality, nat_eq, includes, arith,
}
use ai_research_workbench.Common.Outcome.{
  Outcome, error, require, invalid_run_transition, invalid_stage_transition,
}

-- RESEARCH_RUN_STATUSES
pub data RunStatus : Type 0 where
  created waiting_for_plan_approval queued running paused cancelling : RunStatus
  cancelled failed qa_required approval_required completed blocked : RunStatus

-- RUN_STAGE_STATUSES
pub data StageStatus : Type 0 where
  pending queued running succeeded failed cancelled blocked stale : StageStatus

-- Positions in the two lists, which tell statuses apart.
unfoldable pub run_index : RunStatus → ℕ
run_index created = 0
run_index waiting_for_plan_approval = 1
run_index RunStatus.queued = 2
run_index RunStatus.running = 3
run_index paused = 4
run_index cancelling = 5
run_index RunStatus.cancelled = 6
run_index RunStatus.failed = 7
run_index qa_required = 8
run_index approval_required = 9
run_index completed = 10
run_index RunStatus.blocked = 11

unfoldable pub stage_index : StageStatus → ℕ
stage_index pending = 0
stage_index StageStatus.queued = 1
stage_index StageStatus.running = 2
stage_index succeeded = 3
stage_index StageStatus.failed = 4
stage_index StageStatus.cancelled = 5
stage_index StageStatus.blocked = 6
stage_index stale = 7

unfoldable pub run_status_eq : RunStatus → RunStatus → Bool
unfolding run_index
run_status_eq a b = nat_eq (run_index a) (run_index b)

unfoldable pub stage_status_eq : StageStatus → StageStatus → Bool
unfolding stage_index
stage_status_eq a b = nat_eq (stage_index a) (stage_index b)

pub run_status_eq_iff : (a b : RunStatus) → (run_status_eq a b ≡ true) ↔ (a ≡ b)
unfolding run_status_eq
run_status_eq_iff a b = ground arith

pub stage_status_eq_iff : (a b : StageStatus) → (stage_status_eq a b ≡ true) ↔ (a ≡ b)
unfolding stage_status_eq
stage_status_eq_iff a b = ground arith

instance abbrev pub RunStatus_eq : Equality RunStatus
RunStatus_eq = record { same = run_status_eq; same_iff = run_status_eq_iff }

instance abbrev pub StageStatus_eq : Equality StageStatus
StageStatus_eq = record { same = stage_status_eq; same_iff = stage_status_eq_iff }

-- The table `runTransitions`.
unfoldable pub run_transitions : RunStatus → List RunStatus
run_transitions created = waiting_for_plan_approval ∷ RunStatus.queued ∷ RunStatus.cancelled ∷ []
run_transitions waiting_for_plan_approval = RunStatus.queued ∷ RunStatus.cancelled ∷ []
run_transitions RunStatus.queued =
    RunStatus.running ∷ paused ∷ cancelling ∷ RunStatus.cancelled ∷ RunStatus.failed
    ∷ RunStatus.blocked ∷ []
run_transitions RunStatus.running =
    paused ∷ cancelling ∷ RunStatus.cancelled ∷ RunStatus.failed ∷ qa_required ∷ approval_required
    ∷ completed ∷ RunStatus.blocked ∷ []
run_transitions paused = RunStatus.queued ∷ cancelling ∷ RunStatus.cancelled ∷ []
run_transitions cancelling = RunStatus.cancelled ∷ RunStatus.failed ∷ []
run_transitions RunStatus.cancelled = RunStatus.queued ∷ []
run_transitions RunStatus.failed = RunStatus.queued ∷ []
run_transitions qa_required =
    RunStatus.queued ∷ RunStatus.running ∷ approval_required ∷ cancelling ∷ RunStatus.cancelled
    ∷ RunStatus.blocked ∷ []
run_transitions approval_required =
    RunStatus.queued ∷ RunStatus.running ∷ completed ∷ cancelling ∷ RunStatus.cancelled
    ∷ RunStatus.blocked ∷ []
run_transitions completed = RunStatus.queued ∷ []
run_transitions RunStatus.blocked =
    RunStatus.queued ∷ cancelling ∷ RunStatus.cancelled ∷ RunStatus.failed ∷ []

-- The table `stageTransitions`.
unfoldable pub stage_transitions : StageStatus → List StageStatus
stage_transitions pending = StageStatus.queued ∷ StageStatus.cancelled ∷ StageStatus.blocked ∷ []
stage_transitions StageStatus.queued =
    StageStatus.running ∷ StageStatus.failed ∷ StageStatus.cancelled ∷ StageStatus.blocked ∷ []
stage_transitions StageStatus.running =
    succeeded ∷ StageStatus.failed ∷ StageStatus.cancelled ∷ StageStatus.blocked ∷ []
stage_transitions succeeded = stale ∷ []
stage_transitions StageStatus.failed = StageStatus.queued ∷ StageStatus.cancelled ∷ []
stage_transitions StageStatus.cancelled = StageStatus.queued ∷ []
stage_transitions StageStatus.blocked = StageStatus.queued ∷ StageStatus.cancelled ∷ []
stage_transitions stale = StageStatus.queued ∷ StageStatus.cancelled ∷ []

unfoldable pub can_transition_research_run : RunStatus → RunStatus → Bool
unfolding run_transitions run_status_eq
can_transition_research_run from to = includes (run_transitions from) to

unfoldable pub can_transition_run_stage : StageStatus → StageStatus → Bool
unfolding stage_transitions stage_status_eq
can_transition_run_stage from to = includes (stage_transitions from) to

unfoldable pub assert_research_run_transition : RunStatus → RunStatus → Outcome (Unit {0})
unfolding can_transition_research_run
assert_research_run_transition from to =
    require (can_transition_research_run from to) (error invalid_run_transition)

unfoldable pub assert_run_stage_transition : StageStatus → StageStatus → Outcome (Unit {0})
unfolding can_transition_run_stage
assert_run_stage_transition from to =
    require (can_transition_run_stage from to) (error invalid_stage_transition)
