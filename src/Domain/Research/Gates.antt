-- ===== src/Domain/Research/Gates.antt =====
-- lib/domain/research.ts: the gates of the workflow and the progress that they add up to.
use ai_research_workbench.Common.{
  ℕ, ◌+◌, ◌*◌, ◌/◌, ◌≤◌, ◌≡◌, ◌↔◌, refl, Bool, true, List, [], ◌∷◌, arith, filter, length, all,
}

pub data WorkflowGate : Type 0 where
  scope_confirmed plan_approved questions_researched claims_linked_to_evidence : WorkflowGate
  report_written qa_passed human_approved deliverables_generated : WorkflowGate

abbrev pub workflow_gates : List WorkflowGate
workflow_gates =
    scope_confirmed ∷ plan_approved ∷ questions_researched ∷ claims_linked_to_evidence
    ∷ report_written ∷ qa_passed ∷ human_approved ∷ deliverables_generated ∷ []

-- `Math.round((completed / WORKFLOW_GATES.length) * 100)`: halves are rounded up.
unfoldable pub calculate_workflow_progress : (WorkflowGate → Bool) → ℕ
calculate_workflow_progress gates =
    (200 * length (filter gates workflow_gates) + length workflow_gates)
    / (2 * length workflow_gates)

abbrev pub Passed : (WorkflowGate → Bool) → (WorkflowGate → Bool) → Type 0
Passed gates gates' = (g : WorkflowGate) → gates g ≡ true → gates' g ≡ true

filter-length_mono :
    (gates gates' : WorkflowGate → Bool) (gs : List WorkflowGate)
    → Passed gates gates'
    → length (filter gates gs) ≤ length (filter gates' gs)
filter-length_mono gates gates' [] h = omega arith
filter-length_mono gates gates' (g ∷ gs) h =
    let rest = filter-length_mono gates gates' gs h in ground (arith, h g)

filter-length-all :
    (gates : WorkflowGate → Bool) (gs : List WorkflowGate)
    → (length (filter gates gs) ≤ length gs)
      × ((length (filter gates gs) ≡ length gs) ↔ (all gates gs ≡ true))
filter-length-all gates [] = (omega arith, (λ _. refl, λ _. refl))
filter-length-all gates (g ∷ gs) =
    let (at_most, iff) = filter-length-all gates gs in
    (ground arith, (λ e. ground (arith, iff.0), λ e. ground (arith, iff.1)))

-- Progress is at most 100, and is 100 exactly if every gate is passed; passing more gates never
-- lowers it.
pub calculate_workflow_progress_bounds :
    (gates gates' : WorkflowGate → Bool)
    → Passed gates gates'
    → (calculate_workflow_progress gates ≤ 100)
      × ((calculate_workflow_progress gates ≡ 100) ↔ (all gates workflow_gates ≡ true))
      × (calculate_workflow_progress gates ≤ calculate_workflow_progress gates')
unfolding calculate_workflow_progress
calculate_workflow_progress_bounds gates gates' h =
    let (at_most, iff) = filter-length-all gates workflow_gates in
    let more = filter-length_mono gates gates' workflow_gates h in
    (omega arith, (λ e. iff.0 (omega arith), λ e. omega (arith, iff.1 e)), omega arith)
