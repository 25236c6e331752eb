-- ===== src/Budgets.antt =====
-- lib/budgets/index.ts: the budget of a run, and the cost of a call. Costs and prices are doubles,
-- and the numbers of requests, tokens and so on are natural numbers. The parsing of prices from
-- JSON, and the date and source of a price, are left out.
pub mod Limits
use ai_research_workbench.Common.{
  ℕ, ◌+◌, ◌*◌, ◌/◌, Bool, true, false, ◌&&◌, Option, none, some, List, [], ◌∷◌, ◌++◌, map, filter,
  find, length, ltb, leb, nat_eq, if◌then◌else◌, has_duplicates, Text, Text_eq, text, text_eq, trim,
}
use ai_research_workbench.Common.Double.{
  Double, positive, double_add, double_times, double_over, double_lt, is_finite,
}
use ai_research_workbench.Common.Outcome.{
  Outcome, ok, throw, ◌>>=◌, ◌>>◌, require, error, invalid_model_pricing,
}

pub data CostStatus : Type 0 where
  known estimated unknown : CostStatus

pub record ModelPrice : Type 0 where
  pub provider : Text
  pub model : Text
  pub input_per_million : Double
  pub output_per_million : Double
  pub status : CostStatus

pub record BudgetSnapshot : Type 0 where
  pub max_provider_requests : ℕ
  pub max_search_requests : ℕ
  pub max_input_tokens : ℕ
  pub max_output_tokens : ℕ
  pub max_estimated_cost : Double
  pub max_elapsed_ms : ℕ
  pub max_stage_attempts : ℕ
  pub max_sources : ℕ
  pub max_document_chunks : ℕ

pub record RunUsage : Type 0 where
  pub provider_requests : ℕ
  pub search_requests : ℕ
  pub input_tokens : ℕ
  pub output_tokens : ℕ
  pub estimated_cost : Double
  pub cost_status : CostStatus
  pub elapsed_ms : ℕ
  pub stage_attempts : ℕ
  pub sources : ℕ
  pub document_chunks : ℕ

-- `Partial<RunUsage>`
pub record NextUsage : Type 0 where
  pub provider_requests : Option ℕ
  pub search_requests : Option ℕ
  pub input_tokens : Option ℕ
  pub output_tokens : Option ℕ
  pub estimated_cost : Option Double
  pub cost_status : Option CostStatus
  pub elapsed_ms : Option ℕ
  pub stage_attempts : Option ℕ
  pub sources : Option ℕ
  pub document_chunks : Option ℕ

pub data Violation : Type 0 where
  max_provider_requests max_search_requests max_input_tokens max_output_tokens : Violation
  max_estimated_cost max_elapsed_time max_stage_attempts max_sources : Violation
  max_document_chunks unknown_model_cost : Violation

pub record BudgetDecision : Type 0 where
  pub allowed : Bool
  pub violations : List Violation

abbrev pub or_zero : Option ℕ → ℕ
or_zero none = 0
or_zero (some n) = n

abbrev pub cost_or_zero : Option Double → Double
cost_or_zero none = positive 0
cost_or_zero (some c) = c

abbrev pub status_or : Option CostStatus → CostStatus → CostStatus
status_or none s = s
status_or (some t) s = t

abbrev is_unknown : CostStatus → Bool
is_unknown unknown = true
is_unknown _ = false

unfoldable pub projected : RunUsage → NextUsage → RunUsage
projected usage next = record {
  provider_requests = usage.provider_requests + or_zero next.provider_requests;
  search_requests = usage.search_requests + or_zero next.search_requests;
  input_tokens = usage.input_tokens + or_zero next.input_tokens;
  output_tokens = usage.output_tokens + or_zero next.output_tokens;
  estimated_cost = double_add usage.estimated_cost (cost_or_zero next.estimated_cost);
  cost_status = status_or next.cost_status usage.cost_status;
  elapsed_ms = usage.elapsed_ms + or_zero next.elapsed_ms;
  stage_attempts = usage.stage_attempts + or_zero next.stage_attempts;
  sources = usage.sources + or_zero next.sources;
  document_chunks = usage.document_chunks + or_zero next.document_chunks;
}

abbrev failed_if : Bool → Violation → List Violation → List Violation
failed_if test code rest = if test then code ∷ rest else rest

unfoldable pub violations_of : BudgetSnapshot → RunUsage → RunUsage → List Violation
violations_of b usage p =
    failed_if (ltb b.max_provider_requests p.provider_requests) max_provider_requests (
      failed_if (ltb b.max_search_requests p.search_requests) max_search_requests (
        failed_if (ltb b.max_input_tokens p.input_tokens) max_input_tokens (
          failed_if (ltb b.max_output_tokens p.output_tokens) max_output_tokens (
            failed_if (double_lt b.max_estimated_cost p.estimated_cost) max_estimated_cost (
              failed_if (ltb b.max_elapsed_ms p.elapsed_ms) max_elapsed_time (
                failed_if (ltb b.max_stage_attempts p.stage_attempts) max_stage_attempts (
                  failed_if (ltb b.max_sources p.sources) max_sources (
                    failed_if (ltb b.max_document_chunks p.document_chunks) max_document_chunks (
                      failed_if
                        (ltb usage.provider_requests p.provider_requests
                          && is_unknown p.cost_status
                          && is_finite b.max_estimated_cost)
                        unknown_model_cost [])))))))))

unfoldable pub check_run_budget : BudgetSnapshot → RunUsage → NextUsage → BudgetDecision
unfolding violations_of projected
check_run_budget budget usage next =
    let violations = violations_of budget usage (projected usage next) in
    record { allowed = nat_eq (length violations) 0; violations = violations }

pub record CostEstimate : Type 0 where
  pub status : CostStatus
  pub cost : Option Double

abbrev cost_at : Option ModelPrice → Option ℕ → Option ℕ → CostEstimate
cost_at (some price) (some input) (some output) = record {
  status = price.status;
  cost = some (
      double_over
        (double_add (double_times input price.input_per_million)
          (double_times output price.output_per_million))
        1000000);
}
cost_at _ _ _ = record { status = unknown; cost = none }

unfoldable pub estimate_provider_cost :
    Text → Text → Option ℕ → Option ℕ → List ModelPrice → CostEstimate
estimate_provider_cost provider model input_tokens output_tokens prices =
    cost_at (find (λ p. text_eq p.provider provider && text_eq p.model model) prices) input_tokens
      output_tokens
