-- ===== src/Domain/RetryPolicy/Bounds.antt =====
-- lib/domain/jobs.ts: the retry policy that a stored value parses to, the delay without jitter, and
-- the failure status.
use ai_research_workbench.Common.Double.{unit, nearest, exponent_from, exponent, rounded}
use ai_research_workbench.Common.Double.Exact.{rounded-exact}
use ai_research_workbench.Common.{
  refl, leb, min, max, ◌-◌, ◌^◌, ◌*◌, ℕ, ◌≤◌, ◌<◌, ◌≡◌, ◌↔◌, true, false, Option, none, some, ltb,
  if◌then◌else◌, arith,
}
use ai_research_workbench.Common.Number.{
  millionths, JsNumber, scale, whole, max_safe_integer, safe_integer_between-whole,
  safe_integer_between_bounds,
}
use ai_research_workbench.Common.Outcome.{ok, >>=-ok}
use ai_research_workbench.Domain.Jobs.{
  JobStatus, retry_wait, failed, dead_letter, JobErrorClass, is_retryable_job_error, claimed,
  running, can_transition_job,
}
use ai_research_workbench.Domain.RetryPolicy.{
  JobRetryPolicy, PolicyValue, not_object, object, policy_value, finite_integer, jitter_multiplier,
  fraction, rounded_product, calculate_retry_delay_ms, exponential_delay, random_or_throw,
  retry_after_or_throw, parse_job_retry_policy, failure_job_status, unit_ratio, ratio_or_throw,
  or_throw,
}

-- What the parser promises of a policy.
pub record IsValid (p : JobRetryPolicy) : Type 0 where
  pub positive : 1 ≤ p.base_delay_ms
  pub ordered : p.base_delay_ms ≤ p.max_delay_ms
  pub safe : p.max_delay_ms ≤ max_safe_integer
  pub ratio : p.jitter_ratio ≤ scale

finite_integer-whole :
    (n minimum : ℕ)
    → minimum ≤ n
    → n ≤ max_safe_integer
    → finite_integer (some (whole n)) minimum ≡ ok n
unfolding finite_integer or_throw
finite_integer-whole n minimum h s =
    rw (safe_integer_between-whole minimum max_safe_integer n h s s)

finite_integer_bounds :
    (v : Option JsNumber) (minimum : ℕ) {n : ℕ}
    → finite_integer v minimum ≡ ok n
    → (minimum ≤ n) × (n ≤ max_safe_integer)
unfolding finite_integer or_throw
finite_integer_bounds none minimum h = absurd (cc)
finite_integer_bounds (some v) minimum h =
    ground (arith, safe_integer_between_bounds minimum max_safe_integer v)

-- A valid policy is read back from the value that it is stored as.
pub parse-policy_value :
    (p : JobRetryPolicy) → IsValid p → parse_job_retry_policy (policy_value p) ≡ ok p
unfolding parse_job_retry_policy unit_ratio ratio_or_throw
parse-policy_value p v =
    rw
      (
        finite_integer-whole p.base_delay_ms 1 v.positive (omega arith),
        finite_integer-whole p.max_delay_ms p.base_delay_ms v.ordered v.safe,
      )
      (ground arith)

-- Whatever value is stored, a policy that the parser accepts is valid.
pub parse-IsValid :
    (v : PolicyValue) {p : JobRetryPolicy} → parse_job_retry_policy v ≡ ok p → IsValid p
unfolding parse_job_retry_policy unit_ratio ratio_or_throw
parse-IsValid not_object h = absurd (cc)
parse-IsValid (object base max_delay jitter) h =
    let (b, eb, h) = >>=-ok (finite_integer base 1) _ h in
    let (m, em, h) = >>=-ok (finite_integer max_delay b) _ h in
    let low = finite_integer_bounds base 1 eb in
    let high = finite_integer_bounds max_delay b em in ground arith

-- Without a jitter ratio the multiplier is 1, whatever is drawn.
jitter_multiplier-zero : (drawn : ℕ) → jitter_multiplier 0 drawn ≡ unit
unfolding jitter_multiplier fraction unit rounded nearest exponent exponent_from
jitter_multiplier-zero drawn =
    let none : rounded (drawn * unit) scale * 0 ≡ 0 = omega arith in rw none refl

rounded_product-unit : (e : ℕ) → e ≤ max_safe_integer → rounded_product e unit ≡ e
unfolding rounded_product unit
rounded_product-unit e h = rw (rounded-exact e 1074 (omega arith)) (omega arith)

-- With a valid policy without jitter, a positive attempt number, a draw between 0 and 1 and a safe
-- `Retry-After`, the delay, for all the rounding of doubles on the way, is exactly the larger of
-- `Retry-After` and the base delay doubled for each attempt after the first, at most 30 times, and
-- capped by the maximum.
pub calculate_retry_delay_ms_exact :
    (p : JobRetryPolicy) (n drawn after : ℕ)
    → IsValid p
    → p.jitter_ratio ≡ 0
    → 1 ≤ n
    → n ≤ max_safe_integer
    → drawn ≤ scale
    → after ≤ max_safe_integer
    → calculate_retry_delay_ms (whole n) (policy_value p) (some (whole after)) (millionths drawn)
      ≡ ok (max (min p.max_delay_ms (p.base_delay_ms * 2 ^ min (n - 1) 30)) after)
unfolding calculate_retry_delay_ms random_or_throw retry_after_or_throw unit_ratio exponential_delay
calculate_retry_delay_ms_exact p n drawn after v z h s r a =
    let e = min p.max_delay_ms (p.base_delay_ms * 2 ^ min (n - 1) 30) in
    let small : e ≤ max_safe_integer = omega (arith, v.safe) in
    let drawn_ok : leb drawn scale ≡ true = ground arith in
    rw
      (
        finite_integer-whole n 1 h s,
        parse-policy_value p v,
        drawn_ok,
        safe_integer_between-whole 0 max_safe_integer after (omega arith) a a,
        z,
        jitter_multiplier-zero drawn,
        rounded_product-unit e small,
      )
      refl

target : JobErrorClass → ℕ → ℕ → JobStatus
target c attempts max_attempts =
    if is_retryable_job_error c
    then (if ltb attempts max_attempts then retry_wait else dead_letter)
    else failed

failure_job_status-target :
    (c : JobErrorClass) (attempts max_attempts : ℕ)
    → 1 ≤ attempts
    → attempts ≤ max_safe_integer
    → 1 ≤ max_attempts
    → max_attempts ≤ max_safe_integer
    → failure_job_status c (whole attempts) (whole max_attempts)
      ≡ ok (target c attempts max_attempts)
unfolding failure_job_status target
failure_job_status-target c attempts max_attempts low small low' small' =
    rw (finite_integer-whole attempts 1 low small, finite_integer-whole max_attempts 1 low' small')

-- A job that fails after 1 ≤ attempts ≤ maxAttempts attempts goes to FAILED exactly if its error
-- class is not retryable, to RETRY_WAIT exactly if it is and attempts remain, and else to
-- DEAD_LETTER; the move is permitted from CLAIMED and from RUNNING.
pub failure_job_status_cases :
    (c : JobErrorClass) (attempts max_attempts : ℕ)
    → 1 ≤ attempts
    → attempts ≤ max_attempts
    → max_attempts ≤ max_safe_integer
    → (t : JobStatus) × (failure_job_status c (whole attempts) (whole max_attempts) ≡ ok t)
      × ((t ≡ failed) ↔ (is_retryable_job_error c ≡ false))
      × ((t ≡ retry_wait) ↔ ((is_retryable_job_error c ≡ true) × (attempts < max_attempts)))
      × ((t ≡ dead_letter) ↔ ((is_retryable_job_error c ≡ true) × (attempts ≡ max_attempts)))
      × (can_transition_job claimed t ≡ true)
      × (can_transition_job running t ≡ true)
unfolding can_transition_job target
failure_job_status_cases c attempts max_attempts low high safe = (
  target c attempts max_attempts,
  failure_job_status-target c attempts max_attempts low (omega arith) (omega arith) safe,
  (λ e. ground arith, λ e. ground arith),
  (λ e. (ground arith, ground arith), λ e. ground arith),
  (λ e. (ground arith, ground arith), λ e. ground arith),
  ground arith,
  ground arith,
)
