-- ===== src/Execution.antt =====
-- lib/execution/stages.ts: the catalog of the eleven pipeline stages and its validation. The stage
-- names are those of `AI_STAGES` (lib/providers/types.ts); template and schema versions are left out.
pub mod Order
use ai_research_workbench.Common.{
  ℕ, ◌≡◌, ◌↔◌, Bool, true, false, not, ◌&&◌, ◌||◌, Option, none, some, List, [], ◌∷◌, map, Equality,
  ◌==◌, ℕ_eq, leb, ltb, nat_eq, length, find, all, includes, has_duplicates, arith,
}
use ai_research_workbench.Common.Number.{
  JsNumber, JsNumber_eq, whole, number_lt, number_ge, number_same,
}
use ai_research_workbench.Common.Outcome.{
  Outcome, ok, error, require, ◌>>=◌, ◌>>◌, catalog_incomplete, catalog_not_unique, unknown_stage,
  invalid_ordinal, invalid_dependency,
}

-- AI_STAGES
pub data AiStage : Type 0 where
  intake_analysis question_decomposition research_plan source_summary : AiStage
  evidence_extraction claim_generation gap_detection conflict_detection : AiStage
  report_outline draft_generation qa_revision : AiStage

unfoldable pub stage_number : AiStage → ℕ
stage_number intake_analysis = 0
stage_number question_decomposition = 1
stage_number research_plan = 2
stage_number source_summary = 3
stage_number evidence_extraction = 4
stage_number claim_generation = 5
stage_number gap_detection = 6
stage_number conflict_detection = 7
stage_number report_outline = 8
stage_number draft_generation = 9
stage_number qa_revision = 10

unfoldable pub ai_stage_eq : AiStage → AiStage → Bool
unfolding stage_number
ai_stage_eq a b = nat_eq (stage_number a) (stage_number b)

pub ai_stage_eq_iff : (a b : AiStage) → (ai_stage_eq a b ≡ true) ↔ (a ≡ b)
unfolding ai_stage_eq
ai_stage_eq_iff a b = ground arith

instance abbrev pub AiStage_eq : Equality AiStage
AiStage_eq = record { same = ai_stage_eq; same_iff = ai_stage_eq_iff }

abbrev pub ai_stages : List AiStage
ai_stages =
    intake_analysis ∷ question_decomposition ∷ research_plan ∷ source_summary ∷ evidence_extraction
    ∷ claim_generation ∷ gap_detection ∷ conflict_detection ∷ report_outline ∷ draft_generation
    ∷ qa_revision ∷ []

-- PipelineStageDefinition
pub record StageDefinition : Type 0 where
  pub id : AiStage
  pub ordinal : JsNumber
  pub dependencies : List AiStage
  pub timeout_ms : ℕ
  pub max_attempts : ℕ

abbrev stage : AiStage → ℕ → List AiStage → ℕ → ℕ → StageDefinition
stage id ordinal dependencies timeout_ms max_attempts = record {
  id = id;
  ordinal = whole ordinal;
  dependencies = dependencies;
  timeout_ms = timeout_ms;
  max_attempts = max_attempts;
}

-- The table `definitions`, which `getPipelineStageDefinition` reads.
unfoldable pub get_pipeline_stage_definition : AiStage → StageDefinition
get_pipeline_stage_definition intake_analysis = stage intake_analysis 1 [] 60000 3
get_pipeline_stage_definition question_decomposition =
    stage question_decomposition 2 (intake_analysis ∷ []) 60000 3
get_pipeline_stage_definition research_plan =
    stage research_plan 3 (question_decomposition ∷ []) 90000 3
get_pipeline_stage_definition source_summary = stage source_summary 4 (research_plan ∷ []) 90000 3
get_pipeline_stage_definition evidence_extraction =
    stage evidence_extraction 5 (source_summary ∷ []) 120000 3
get_pipeline_stage_definition claim_generation =
    stage claim_generation 6 (evidence_extraction ∷ []) 90000 3
get_pipeline_stage_definition gap_detection = stage gap_detection 7 (claim_generation ∷ []) 60000 2
get_pipeline_stage_definition conflict_detection =
    stage conflict_detection 8 (gap_detection ∷ []) 60000 2
get_pipeline_stage_definition report_outline =
    stage report_outline 9 (conflict_detection ∷ []) 60000 3
get_pipeline_stage_definition draft_generation =
    stage draft_generation 10 (report_outline ∷ []) 120000 3
get_pipeline_stage_definition qa_revision = stage qa_revision 11 (draft_generation ∷ []) 90000 2

-- PIPELINE_STAGE_CATALOG
unfoldable pub pipeline_stage_catalog : List StageDefinition
unfolding get_pipeline_stage_definition
pipeline_stage_catalog = map get_pipeline_stage_definition ai_stages

-- `catalog.find((item) => item.id === dependency)`
unfoldable pub find_definition : List StageDefinition → AiStage → Option StageDefinition
find_definition catalog id = find (λ d. ai_stage_eq d.id id) catalog

-- `!dependencyDefinition || dependencyDefinition.ordinal >= stage.ordinal`, negated.
found_before : Option StageDefinition → JsNumber → Bool
unfolding number_ge
found_before none ordinal = false
found_before (some d) ordinal = not (number_ge d.ordinal ordinal)

unfoldable pub dependency_valid : List StageDefinition → JsNumber → AiStage → Bool
unfolding found_before find_definition
dependency_valid catalog ordinal dependency =
    found_before (find_definition catalog dependency) ordinal

-- The body of the loop over the catalog.
unfoldable pub validate_stage : List StageDefinition → StageDefinition → Outcome (Unit {0})
unfolding dependency_valid number_lt
validate_stage catalog d = do
  require (includes ai_stages d.id) (error unknown_stage)
  require (not (number_lt d.ordinal (whole 1) || number_lt (whole (length ai_stages)) d.ordinal))
      (error invalid_ordinal)
  require (all (dependency_valid catalog d.ordinal) d.dependencies) (error invalid_dependency)

unfoldable pub validate_stages : List StageDefinition → List StageDefinition → Outcome (Unit {0})
unfolding validate_stage
validate_stages catalog [] = ok tt
validate_stages catalog (d ∷ ds) =
    let rest = validate_stages catalog ds in validate_stage catalog d >> rest

unfoldable pub validate_pipeline_stage_catalog : List StageDefinition → Outcome (Unit {0})
validate_pipeline_stage_catalog catalog = do
  require (length catalog == length ai_stages) (error catalog_incomplete)
  require
      (not (has_duplicates (map (λ d. d.id) catalog))
        && not (has_duplicates (map (λ d. d.ordinal) catalog)))
      (error catalog_not_unique)
  validate_stages catalog catalog
