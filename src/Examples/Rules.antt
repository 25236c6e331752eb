-- ===== src/Examples/Rules.antt =====
-- Inputs for the rules of lib/domain, lib/execution and lib/auth.
use ai_research_workbench.Common.{
  min, max, ◌^◌, ◌-◌, take, ◌++◌, has_duplicates, inl, ℕ, ◌≤◌, ◌<◌, ◌≡◌, ◌≢◌, ◌⊎◌, ◌↔◌, refl,
  length, Bool, true, false, none, some, List, [], ◌∷◌, map, all, arith, text, ◌*◌, ◌+◌, All,
}
use ai_research_workbench.Common.Number.{
  not_a_number, number_lt, number_ge, number_same, millionths, whole, safe_integer_between,
}
use ai_research_workbench.Common.Outcome.{ok}
use ai_research_workbench.Domain.Jobs.{
  JobStatus, queued, cancellation_requested, dead_letter, failed, JobErrorClass, can_transition_job,
  is_terminal_job_status, retry_wait, is_retryable_job_error, claimed, running,
}
use ai_research_workbench.Domain.Jobs.Graph
use ai_research_workbench.Domain.Jobs.Graph.{cancellation_final, terminal_exits}
use ai_research_workbench.Common.Double.{rounded, nearest, exponent, exponent_from, unit}
use ai_research_workbench.Domain.RetryPolicy.{
  rounded_product, jitter_multiplier, exponential_delay, default_job_retry_policy, ratio_or_throw,
  unit_ratio, random_or_throw, retry_after_or_throw, JobRetryPolicy, finite_integer, policy_value,
  parse_job_retry_policy, calculate_retry_delay_ms, failure_job_status,
}
use ai_research_workbench.Domain.RetryPolicy.Bounds as Policy
use ai_research_workbench.Domain.RetryPolicy.Bounds.{
  calculate_retry_delay_ms_exact, parse-policy_value, parse-IsValid, failure_job_status_cases,
}
use ai_research_workbench.Domain.JobErrors.{sanitize_job_error, error_limit}
use ai_research_workbench.Domain.JobErrors.Clean.{Printable, sanitize_job_error_clean}
use ai_research_workbench.Domain.Runs.{
  RunStatus, StageStatus, can_transition_research_run, can_transition_run_stage, stale, succeeded,
  paused,
}
use ai_research_workbench.Domain.Runs.Graph as Run
use ai_research_workbench.Domain.Runs.Graph.{
  started_forever, always_restartable, stage_moves, Unstarted,
}
use ai_research_workbench.Execution.{
  validate_pipeline_stage_catalog, validate_stages, dependency_valid, AiStage,
  pipeline_stage_catalog, find_definition, ai_stage_eq, get_pipeline_stage_definition,
}
use ai_research_workbench.Execution
use ai_research_workbench.Execution.Order.{
  Requires, catalog_ok, catalog-IsNumbered, validated-acyclic,
}
use ai_research_workbench.Domain.Research.Gates.{
  WorkflowGate, workflow_gates, scope_confirmed, calculate_workflow_progress,
  calculate_workflow_progress_bounds,
}
use ai_research_workbench.Domain.Research.Freshness.{
  DateInput, date, string, utc_day, parse_date, is_calendar_date, date_utc, assess_source_freshness,
  assess_source_freshness_mono, SourceFreshnessStatus, rank, outdated, unknown, current,
}
use ai_research_workbench.Domain.Research.Support.{
  ClaimEvidence, supports, verified, ClaimCases, calculate_claim_support_status_cases,
}
use ai_research_workbench.Domain.Research.Citations.{
  Accepted, validate_citation_ids, validate_citation_ids_iff,
}
use ai_research_workbench.Auth.RateLimit.{
  LoginRateLimitConfig, get_login_rate_limit_config, get_login_rate_limit_config-IsValid,
  register_failures, register_login_failure, login_retry_after_seconds, no_failure,
  register_failures_block, bounded_environment_integer,
}
use ai_research_workbench.Auth.RateLimit as Login

paused_started : ¬ Unstarted paused
paused_started h = ground arith

default-IsValid : Policy.IsValid default_job_retry_policy
default-IsValid = record {
  positive = omega arith;
  ordered = omega arith;
  safe = omega arith;
  ratio = omega arith;
}

abbrev only_scope : WorkflowGate → Bool
only_scope scope_confirmed = true
only_scope _ = false

abbrev every_gate : WorkflowGate → Bool
every_gate g = true

abbrev january : DateInput
january = string (text "2026-01-15")

abbrev june : DateInput
june = date (some (2026, 6, 30))

abbrev one_support : List ClaimEvidence
one_support =
    record {
      relationship = supports;
      verification_status = verified;
      source_freshness = current;
      support_extent = none;
    }
    ∷ []

abbrev failure_times : List ℕ
failure_times = 1000 ∷ 2000 ∷ 2500 ∷ 9000 ∷ []

abbrev login_defaults : LoginRateLimitConfig
login_defaults = record { maximum_attempts = 5; window_seconds = 900; block_seconds = 900 }

research_plan-Requires :
    Requires pipeline_stage_catalog AiStage.research_plan AiStage.question_decomposition
unfolding pipeline_stage_catalog find_definition ai_stage_eq
research_plan-Requires =
    Requires.direct {d = get_pipeline_stage_definition AiStage.research_plan} refl refl

cancellation_final_example :
    (JobStatus.cancelled ≡ cancellation_requested) ⊎ (JobStatus.cancelled ≡ JobStatus.cancelled)
unfolding can_transition_job
cancellation_final_example =
    cancellation_final (Graph.◌⟶*◌.then {t = JobStatus.cancelled} refl Graph.◌⟶*◌.here)

terminal_exits_example : (queued ≡ queued) × ((dead_letter ≡ failed) ⊎ (dead_letter ≡ dead_letter))
unfolding can_transition_job is_terminal_job_status
terminal_exits_example = terminal_exits dead_letter queued refl refl

-- With a ratio of 0.9 and a draw of 0 the multiplier is 0.09999999999999998, so that five
-- milliseconds become none; with a draw of 1 they become 9.5, which is rounded upwards.
abbrev nine_tenths : JobRetryPolicy
nine_tenths = record { base_delay_ms = 5; max_delay_ms = 60000; jitter_ratio = 900000 }

least_delay :
    calculate_retry_delay_ms (whole 1) (policy_value nine_tenths) none (millionths 0) ≡ ok 0
unfolding calculate_retry_delay_ms parse_job_retry_policy finite_integer ratio_or_throw unit_ratio
    random_or_throw retry_after_or_throw rounded_product rounded exponential_delay jitter_multiplier
    unit nearest exponent exponent_from
least_delay = refl

largest_delay :
    calculate_retry_delay_ms (whole 1) (policy_value nine_tenths) none (millionths 1000000) ≡ ok 10
unfolding calculate_retry_delay_ms parse_job_retry_policy finite_integer ratio_or_throw unit_ratio
    random_or_throw retry_after_or_throw rounded_product rounded exponential_delay jitter_multiplier
    unit nearest exponent exponent_from
largest_delay = refl

no_jitter-IsValid : Policy.IsValid (record default_job_retry_policy { jitter_ratio = 0 })
no_jitter-IsValid = record {
  positive = omega arith;
  ordered = omega arith;
  safe = omega arith;
  ratio = omega arith;
}

calculate_retry_delay_ms_exact_example :
    calculate_retry_delay_ms
      (whole 9)
      (policy_value (record default_job_retry_policy { jitter_ratio = 0 }))
      (some (whole 700))
      (millionths 250000)
    ≡ ok (max (min 60000 (default_job_retry_policy.base_delay_ms * 2 ^ min (9 - 1) 30)) 700)
calculate_retry_delay_ms_exact_example =
    calculate_retry_delay_ms_exact (record default_job_retry_policy { jitter_ratio = 0 }) 9 250000
      700 no_jitter-IsValid refl (omega arith) (omega arith) (omega arith) (omega arith)

failure_job_status_cases_example :
    (t : JobStatus) × (failure_job_status JobErrorClass.unknown (whole 3) (whole 3) ≡ ok t)
    × ((t ≡ failed) ↔ (is_retryable_job_error JobErrorClass.unknown ≡ false))
    × ((t ≡ retry_wait) ↔ ((is_retryable_job_error JobErrorClass.unknown ≡ true) × (3 < 3)))
    × ((t ≡ dead_letter)
        ↔ ((is_retryable_job_error JobErrorClass.unknown ≡ true) × (◌≡◌ {A = ℕ} 3 3)))
    × (can_transition_job claimed t ≡ true)
    × (can_transition_job running t ≡ true)
failure_job_status_cases_example =
    failure_job_status_cases JobErrorClass.unknown 3 3 (omega arith) (omega arith) (omega arith)

parse-policy_value_example :
    parse_job_retry_policy (policy_value default_job_retry_policy) ≡ ok default_job_retry_policy
parse-policy_value_example = parse-policy_value default_job_retry_policy default-IsValid

parse-IsValid_example : Policy.IsValid default_job_retry_policy
parse-IsValid_example =
    parse-IsValid (policy_value default_job_retry_policy)
      (parse-policy_value default_job_retry_policy default-IsValid)

sanitize_job_error_clean_example :
    All Printable (sanitize_job_error (text "api_key=abc\nfailed"))
    × (length (sanitize_job_error (text "api_key=abc\nfailed")) ≤ error_limit)
    × (sanitize_job_error (text "api_key=abc\nfailed") ≢ [])
sanitize_job_error_clean_example = sanitize_job_error_clean (text "api_key=abc\nfailed")

started_forever_example : ¬ Unstarted RunStatus.running
unfolding can_transition_research_run
started_forever_example =
    started_forever
      (Run.◌⟶*◌.then {s = RunStatus.paused} {t = RunStatus.queued} refl
        (Run.◌⟶*◌.then {t = RunStatus.running} refl Run.◌⟶*◌.here))
      paused_started

always_restartable_example : Run.◌⟶*◌ paused RunStatus.running
always_restartable_example = always_restartable paused

stage_moves_example :
    (succeeded ≡ succeeded → stale ≡ stale)
    × (stale ≡ succeeded → succeeded ≡ StageStatus.running)
    × (stale ≡ StageStatus.running → succeeded ≡ StageStatus.queued)
    × (stale ≡ stale → succeeded ≡ succeeded)
unfolding can_transition_run_stage
stage_moves_example = stage_moves succeeded stale refl

validated-acyclic_example :
    (d : Execution.StageDefinition) × (e : Execution.StageDefinition) × (find_definition
        pipeline_stage_catalog AiStage.research_plan
      ≡ some d)
    × (find_definition pipeline_stage_catalog AiStage.question_decomposition ≡ some e)
    × (number_lt e.ordinal d.ordinal ≡ true)
    × (AiStage.research_plan ≢ AiStage.question_decomposition)
validated-acyclic_example =
    validated-acyclic pipeline_stage_catalog catalog_ok catalog-IsNumbered research_plan-Requires

-- The last stage with NaN for its ordinal and itself for its dependency.
abbrev self_dependent : Execution.StageDefinition
self_dependent = record (get_pipeline_stage_definition AiStage.qa_revision) {
  ordinal = not_a_number;
  dependencies = AiStage.qa_revision ∷ [];
}

self_dependent_accepted :
    validate_pipeline_stage_catalog (take 10 pipeline_stage_catalog ++ self_dependent ∷ []) ≡ ok tt
unfolding validate_pipeline_stage_catalog pipeline_stage_catalog validate_stages has_duplicates
    ai_stage_eq number_same number_lt number_ge dependency_valid find_definition
self_dependent_accepted = refl

calculate_workflow_progress_bounds_example :
    (calculate_workflow_progress only_scope ≤ 100)
    × ((calculate_workflow_progress only_scope ≡ 100) ↔ (all only_scope workflow_gates ≡ true))
    × (calculate_workflow_progress only_scope ≤ calculate_workflow_progress every_gate)
calculate_workflow_progress_bounds_example =
    calculate_workflow_progress_bounds only_scope every_gate (λ g h. refl)

assess_source_freshness_mono_example :
    (f : SourceFreshnessStatus) × (f' : SourceFreshnessStatus) × (assess_source_freshness
        (some january)
        june
        (whole 30)
      ≡ ok f)
    × (assess_source_freshness (some june) june (whole 30) ≡ ok f')
    × (rank f ≤ rank f')
    × (f ≢ unknown)
    × (f' ≢ unknown)
    × ((f ≡ outdated) ↔ (739997 + 30 < 740163))
    × ((f' ≡ outdated) ↔ (740163 + 30 < 740163))
    × (◌≡◌ {A = ℕ} 740163 740163 → f' ≡ current)
unfolding utc_day parse_date is_calendar_date date_utc text
assess_source_freshness_mono_example =
    assess_source_freshness_mono january june june 30 {from = 739997} {from' = 740163} {to = 740163}
      refl refl refl (omega arith) (omega arith)

calculate_claim_support_status_cases_example : ClaimCases one_support
calculate_claim_support_status_cases_example = calculate_claim_support_status_cases one_support

validate_citation_ids_iff_example :
    (validate_citation_ids (some (text "S-1") ∷ []) (text "S-1" ∷ []) ≡ ok (text "S-1" ∷ [])) ↔ (
      (some (text "S-1") ∷ [] ≡ map some (text "S-1" ∷ []))
      × Accepted (text "S-1" ∷ []) [] (text "S-1" ∷ []))
validate_citation_ids_iff_example =
    validate_citation_ids_iff (some (text "S-1") ∷ []) (text "S-1" ∷ []) (text "S-1" ∷ [])

get_login_rate_limit_config-IsValid_example : Login.IsValid login_defaults
unfolding get_login_rate_limit_config bounded_environment_integer safe_integer_between
get_login_rate_limit_config-IsValid_example =
    get_login_rate_limit_config-IsValid none none none refl

login_defaults-IsValid : Login.IsValid login_defaults
login_defaults-IsValid = record {
  attempts = (omega arith, omega arith);
  window = (omega arith, omega arith);
  block = (omega arith, omega arith);
}

register_failures_block_example :
    (Login.wait_at login_defaults
        (register_login_failure
          (register_failures login_defaults (no_failure 1000) (1000 ∷ failure_times))
          9500
          login_defaults)
        10000
      ≡ some 900)
    ↔ ((login_defaults.maximum_attempts ≤ length failure_times + 2)
        × (10000 < 1000 + login_defaults.window_seconds * 1000)
        × (10000 < 9500 + login_defaults.block_seconds * 1000)
        × (9500 + login_defaults.block_seconds * 1000 ≤ 10000 + 900 * 1000)
        × (10000 + 900 * 1000 < 9500 + login_defaults.block_seconds * 1000 + 1000))
register_failures_block_example =
    register_failures_block login_defaults (no_failure 1000) 1000 failure_times 9500 10000 900
      login_defaults-IsValid (inl refl)
      (omega arith, (omega arith, (omega arith, (omega arith, tt)))) (omega arith)
