-- ===== src/Domain/RetryPolicy.antt =====
-- lib/domain/jobs.ts: the retry policy of a job and the delay before its next attempt. Ratios and
-- random draws are given in millionths, and the delay is computed with the doubles nearest to them.
pub mod Bounds
use ai_research_workbench.Common.{
  ℕ, ◌+◌, ◌-◌, ◌*◌, ◌/◌, ◌^◌, min, max, Option, none, some, leb, ltb, if◌then◌else◌,
}
use ai_research_workbench.Common.Double.{unit, rounded}
use ai_research_workbench.Common.Number.{
  JsNumber, millionths, scale, whole, max_safe_integer, safe_integer_between,
}
use ai_research_workbench.Domain.Jobs.{
  JobStatus, retry_wait, failed, dead_letter, JobErrorClass, is_retryable_job_error,
}
use ai_research_workbench.Common.Outcome.{
  Outcome, ok, throw, error, ◌>>=◌, invalid_number, invalid_retry_policy, invalid_jitter_ratio,
  invalid_random, invalid_retry_after,
}

-- JobRetryPolicy
pub record JobRetryPolicy : Type 0 where
  pub base_delay_ms : ℕ
  pub max_delay_ms : ℕ
  pub jitter_ratio : ℕ  -- in millionths

-- DEFAULT_JOB_RETRY_POLICY
abbrev pub default_job_retry_policy : JobRetryPolicy
default_job_retry_policy = record {
  base_delay_ms = 1000;
  max_delay_ms = 60000;
  jitter_ratio = 200000;
}

-- An `unknown` value: an object with the fields that the parser reads, or anything else. A field
-- that is missing or is no number is `none`.
pub data PolicyValue : Type 0 where
  not_object : PolicyValue
  object : Option JsNumber → Option JsNumber → Option JsNumber → PolicyValue

-- The value that a policy is stored as.
abbrev pub policy_value : JobRetryPolicy → PolicyValue
policy_value p =
    object (some (whole p.base_delay_ms)) (some (whole p.max_delay_ms))
      (some (millionths p.jitter_ratio))

unfoldable pub or_throw : Option ℕ → Outcome ℕ
or_throw none = throw (error invalid_number)
or_throw (some n) = ok n

unfoldable pub finite_integer : Option JsNumber → ℕ → Outcome ℕ
unfolding or_throw safe_integer_between
finite_integer none minimum = throw (error invalid_number)
finite_integer (some v) minimum = or_throw (safe_integer_between minimum max_safe_integer v)

-- A finite number between 0 and 1.
unfoldable pub unit_ratio : Option JsNumber → Option ℕ
unit_ratio (some (millionths n)) = if leb n scale then some n else none
unit_ratio _ = none

unfoldable pub ratio_or_throw : Option ℕ → Outcome ℕ
ratio_or_throw none = throw (error invalid_jitter_ratio)
ratio_or_throw (some n) = ok n

unfoldable pub parse_job_retry_policy : PolicyValue → Outcome JobRetryPolicy
parse_job_retry_policy not_object = throw (error invalid_retry_policy)
parse_job_retry_policy (object base max_delay jitter) = do
  base_delay_ms ← finite_integer base 1
  max_delay_ms ← finite_integer max_delay base_delay_ms
  jitter_ratio ← ratio_or_throw (unit_ratio jitter)
  ok (record {
    base_delay_ms = base_delay_ms;
    max_delay_ms = max_delay_ms;
    jitter_ratio = jitter_ratio;
  })

unfoldable pub random_or_throw : Option ℕ → Outcome ℕ
random_or_throw none = throw (error invalid_random)
random_or_throw (some n) = ok n

unfoldable pub after_or_throw : Option ℕ → Outcome ℕ
after_or_throw none = throw (error invalid_retry_after)
after_or_throw (some n) = ok n

-- `input.retryAfterMs ?? 0`, validated.
unfoldable pub retry_after_or_throw : Option JsNumber → Outcome ℕ
unfolding after_or_throw
retry_after_or_throw none = ok 0
retry_after_or_throw (some v) = after_or_throw (safe_integer_between 0 max_safe_integer v)

-- `Math.min(policy.maxDelayMs, policy.baseDelayMs * 2 ** Math.min(attempt - 1, 30))`
unfoldable pub exponential_delay : JobRetryPolicy → ℕ → ℕ
exponential_delay policy attempt =
    min policy.max_delay_ms (policy.base_delay_ms * 2 ^ min (attempt - 1) 30)

-- A double as a number of units, from millionths.
unfoldable pub fraction : ℕ → ℕ
fraction n = rounded (n * unit) scale

-- `1 - jitterRatio + random * jitterRatio * 2`, in units; each operation is rounded.
unfoldable pub jitter_multiplier : ℕ → ℕ → ℕ
unfolding fraction
jitter_multiplier ratio random_value =
    let r = fraction ratio in
    let product = rounded (fraction random_value * r) unit in
    rounded (rounded (unit - r) 1 + rounded (product * 2) 1) 1

-- `Math.round(exponential * multiplier)`: the product is rounded to a double, and then to the nearest
-- integer, a half upwards.
unfoldable pub rounded_product : ℕ → ℕ → ℕ
rounded_product exponential multiplier =
    (2 * rounded (exponential * multiplier) 1 + unit) / (2 * unit)

unfoldable pub calculate_retry_delay_ms :
    JsNumber → PolicyValue → Option JsNumber → JsNumber → Outcome ℕ
calculate_retry_delay_ms attempt_value policy_input retry_after_ms drawn = do
  attempt ← finite_integer (some attempt_value) 1
  policy ← parse_job_retry_policy policy_input
  random_value ← random_or_throw (unit_ratio (some drawn))
  retry_after ← retry_after_or_throw retry_after_ms
  let jittered =
      rounded_product (exponential_delay policy attempt)
        (jitter_multiplier policy.jitter_ratio random_value)
  ok (max jittered retry_after)

unfoldable pub failure_job_status : JobErrorClass → JsNumber → JsNumber → Outcome JobStatus
failure_job_status error_class attempts_value max_attempts_value = do
  attempts ← finite_integer (some attempts_value) 1
  max_attempts ← finite_integer (some max_attempts_value) 1
  ok (
      if is_retryable_job_error error_class
      then (if ltb attempts max_attempts then retry_wait else dead_letter)
      else failed)
