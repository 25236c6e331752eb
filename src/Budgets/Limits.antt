-- ===== src/Budgets/Limits.antt =====
-- What a budget that allows a step says of the usage after it.
use ai_research_workbench.Common.{
  ℕ, ◌+◌, ◌≤◌, ◌≡◌, ◌↔◌, ◌⊎◌, ◌≢◌, inl, inr, Bool, true, false, not, ◌&&◌, Bool-cases, List, length,
  ltb, nat_eq, arith, refl,
}
use ai_research_workbench.Common.Double.{double_add, double_lt, is_finite}
use ai_research_workbench.Budgets.{
  BudgetSnapshot, RunUsage, NextUsage, CostStatus, unknown, known, estimated, or_zero, status_or,
  cost_or_zero, is_unknown, failed_if, projected, violations_of, check_run_budget, Violation,
}

-- The usage is within the budget, the cost by the sum of doubles, and if a provider is to be asked
-- its cost is known, or the budget has no finite limit of costs.
pub record IsWithin (b : BudgetSnapshot) (usage : RunUsage) (next : NextUsage) : Type 0 where
  pub provider_requests :
      usage.provider_requests + or_zero next.provider_requests ≤ b.max_provider_requests
  pub search_requests : usage.search_requests + or_zero next.search_requests ≤ b.max_search_requests
  pub input_tokens : usage.input_tokens + or_zero next.input_tokens ≤ b.max_input_tokens
  pub output_tokens : usage.output_tokens + or_zero next.output_tokens ≤ b.max_output_tokens
  pub elapsed_ms : usage.elapsed_ms + or_zero next.elapsed_ms ≤ b.max_elapsed_ms
  pub stage_attempts : usage.stage_attempts + or_zero next.stage_attempts ≤ b.max_stage_attempts
  pub sources : usage.sources + or_zero next.sources ≤ b.max_sources
  pub document_chunks : usage.document_chunks + or_zero next.document_chunks ≤ b.max_document_chunks
  pub cost :
      double_lt b.max_estimated_cost
        (double_add usage.estimated_cost (cost_or_zero next.estimated_cost))
      ≡ false
  pub priced :
      (is_finite b.max_estimated_cost ≡ false)
      ⊎ ((or_zero next.provider_requests ≡ 0)
          ⊎ (status_or next.cost_status usage.cost_status ≢ unknown))

passes_if :
    (test : Bool) (code : Violation) (rest : List Violation)
    → nat_eq (length (failed_if test code rest)) 0 ≡ (not test && nat_eq (length rest) 0)
passes_if true code rest = ground arith
passes_if false code rest = refl

-- No test of the budget fails.
passes :
    (b : BudgetSnapshot) (usage p : RunUsage)
    → nat_eq (length (violations_of b usage p)) 0 ≡ (
        not (ltb b.max_provider_requests p.provider_requests)
        && (not (ltb b.max_search_requests p.search_requests)
            && (not (ltb b.max_input_tokens p.input_tokens)
                && (not (ltb b.max_output_tokens p.output_tokens)
                    && (not (double_lt b.max_estimated_cost p.estimated_cost)
                        && (not (ltb b.max_elapsed_ms p.elapsed_ms)
                            && (not (ltb b.max_stage_attempts p.stage_attempts)
                                && (not (ltb b.max_sources p.sources)
                                    && (not (ltb b.max_document_chunks p.document_chunks)
                                        && (not (
                                              ltb usage.provider_requests p.provider_requests
                                              && is_unknown p.cost_status
                                              && is_finite b.max_estimated_cost)
                                            && true))))))))))
unfolding violations_of
passes b usage p = simp (passes_if) refl

both : {a b : Bool} → a ≡ true → b ≡ true → (a && b) ≡ true
both {a} {b} h k = ground arith

under : {x m : ℕ} → x ≤ m → not (ltb m x) ≡ true
under {x} {m} h = ground arith

status_known : (status : CostStatus) → is_unknown status ≡ false → status ≢ unknown
status_known known h = λ e. cc
status_known estimated h = λ e. cc
status_known unknown h = absurd (cc)

known_status : (status : CostStatus) → status ≢ unknown → is_unknown status ≡ false
known_status known h = refl
known_status estimated h = refl
known_status unknown h = absurd (h refl)

known_cost :
    (limited : Bool) (before after : ℕ) (status : CostStatus)
    → (not (ltb before (before + after) && is_unknown status && limited) ≡ true)
      ↔ ((limited ≡ false) ⊎ ((after ≡ 0) ⊎ (status ≢ unknown)))
known_cost false before after status = (λ h. inl refl, λ h. ground arith)
known_cost true before after status = (
  λ h. inr (elim (Bool-cases (is_unknown status)) [
    | inl e ↦ inl (ground arith)
    | inr e ↦ inr (status_known status e)
  ]),
  λ h. elim h [
    | inl e ↦ absurd (cc)
    | inr asked ↦ elim asked [
      | inl none ↦ ground arith
      | inr sure ↦ let fine = known_status status sure in ground arith
    ]
  ],
)

-- `checkRunBudget` allows a step exactly if the usage after it is within every limit of the budget,
-- where the cost after it is the rounded sum of doubles and must not be above its limit, and, where
-- the limit of costs is finite and the step asks a provider, the status of the cost is not unknown.
pub check_run_budget_iff :
    (b : BudgetSnapshot) (usage : RunUsage) (next : NextUsage)
    → ((check_run_budget b usage next).allowed ≡ true) ↔ IsWithin b usage next
unfolding check_run_budget projected
check_run_budget_iff b usage next =
    let total = passes b usage (projected usage next) in
    let price =
      known_cost (is_finite b.max_estimated_cost) usage.provider_requests
        (or_zero next.provider_requests) (status_or next.cost_status usage.cost_status) in
    let total_cost = double_add usage.estimated_cost (cost_or_zero next.estimated_cost) in
    rw total (
      λ h. record {
        provider_requests = ground arith;
        search_requests = ground arith;
        input_tokens = ground arith;
        output_tokens = ground arith;
        elapsed_ms = ground arith;
        stage_attempts = ground arith;
        sources = ground arith;
        document_chunks = ground arith;
        cost = ground arith;
        priced = price.0 (ground arith);
      },
      λ w.
          let affordable : not (double_lt b.max_estimated_cost total_cost) ≡ true =
            rw w.cost refl in
          let known_status = price.1 w.priced in
          both (under w.provider_requests) (
            both (under w.search_requests) (
              both (under w.input_tokens) (
                both (under w.output_tokens) (
                  both affordable (
                    both (under w.elapsed_ms) (
                      both (under w.stage_attempts) (
                        both (under w.sources)
                          (both (under w.document_chunks) (both known_status refl))))))))),
    )
