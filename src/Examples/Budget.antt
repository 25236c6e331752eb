-- ===== src/Examples/Budget.antt =====
-- One more call of a provider within a budget.
use ai_research_workbench.Common.{◌≡◌, refl, ◌↔◌, true, none, some, [], ◌∷◌}
use ai_research_workbench.Common.Double.{
  rounded, nearest, exponent, exponent_from, literal, double_add, double_lt,
}
use ai_research_workbench.Budgets.{
  BudgetSnapshot, RunUsage, NextUsage, estimated, max_estimated_cost, check_run_budget,
}
use ai_research_workbench.Budgets.Limits.{IsWithin, check_run_budget_iff}

abbrev small_budget : BudgetSnapshot
small_budget = record {
  max_provider_requests = 2;
  max_search_requests = 1;
  max_input_tokens = 100;
  max_output_tokens = 100;
  max_estimated_cost = literal 3 10;
  max_elapsed_ms = 1000;
  max_stage_attempts = 3;
  max_sources = 5;
  max_document_chunks = 5;
}

abbrev used : RunUsage
used = record {
  provider_requests = 1;
  search_requests = 0;
  input_tokens = 10;
  output_tokens = 10;
  estimated_cost = literal 1 10;
  cost_status = estimated;
  elapsed_ms = 20;
  stage_attempts = 1;
  sources = 2;
  document_chunks = 2;
}

abbrev one_request : NextUsage
one_request = record {
  provider_requests = some 1;
  search_requests = none;
  input_tokens = some 90;
  output_tokens = none;
  estimated_cost = some (literal 1 10);
  cost_status = none;
  elapsed_ms = none;
  stage_attempts = none;
  sources = none;
  document_chunks = none;
}

-- A sum of doubles: 0.1 + 0.1 is within 0.3, and 0.1 + 0.2 is above it.
two_tenths_allowed : (check_run_budget small_budget used one_request).allowed ≡ true
unfolding check_run_budget double_add double_lt literal rounded nearest exponent exponent_from
two_tenths_allowed = refl

three_tenths_refused :
    (check_run_budget small_budget used
      (record one_request { estimated_cost = some (literal 2 10) })).violations
    ≡ max_estimated_cost ∷ []
unfolding check_run_budget double_add double_lt literal rounded nearest exponent exponent_from
three_tenths_refused = refl

check_run_budget_iff_example :
    ((check_run_budget small_budget used one_request).allowed ≡ true)
    ↔ IsWithin small_budget used one_request
check_run_budget_iff_example = check_run_budget_iff small_budget used one_request
