-- ===== src/Auth/RateLimit.antt =====
-- lib/auth/rate-limit.ts: failed logins are counted in a window, and too many of them block.
-- Times are in milliseconds. An environment variable is what `Number` makes of it.
use ai_research_workbench.Common.{
  ℕ, ◌+◌, ◌-◌, ◌*◌, ◌/◌, ◌≤◌, ◌<◌, max, ◌≡◌, ◌↔◌, ◌⊎◌, inl, inr, refl, Bool-cases, Option, none,
  some, List, [], ◌∷◌, arith, leb, length, All, if◌then◌else◌,
}
use ai_research_workbench.Common.Number.{
  JsNumber, whole, safe_integer_between, safe_integer_between_bounds,
}
use ai_research_workbench.Common.Outcome.{Outcome, ok, throw, ◌>>=◌, >>=-ok, error, invalid_number}

pub record LoginRateLimitConfig : Type 0 where
  pub maximum_attempts : ℕ
  pub window_seconds : ℕ
  pub block_seconds : ℕ

pub record LoginRateLimitState : Type 0 where
  pub attempt_count : ℕ
  pub window_started_at : ℕ
  pub blocked_until : Option ℕ

abbrev pub or_else : Option JsNumber → ℕ → JsNumber
or_else none fallback = whole fallback
or_else (some value) fallback = value

abbrev integer_or_throw : Option ℕ → Outcome ℕ
integer_or_throw none = throw (error invalid_number)
integer_or_throw (some n) = ok n

-- The bounds are safe integers, so that any integer between them is.
unfoldable pub bounded_environment_integer : Option JsNumber → ℕ → ℕ → ℕ → Outcome ℕ
bounded_environment_integer value fallback minimum maximum =
    integer_or_throw (safe_integer_between minimum maximum (or_else value fallback))

unfoldable pub get_login_rate_limit_config :
    Option JsNumber → Option JsNumber → Option JsNumber → Outcome LoginRateLimitConfig
get_login_rate_limit_config attempts window block =
    bounded_environment_integer attempts 5 2 100 >>= λ maximum.
    bounded_environment_integer window 900 60 86400 >>= λ seconds.
    bounded_environment_integer block 900 60 86400 >>= λ blocked.
    ok (record { maximum_attempts = maximum; window_seconds = seconds; block_seconds = blocked })

unfoldable pub normalize_login_rate_limit_state :
    LoginRateLimitState → ℕ → LoginRateLimitConfig → LoginRateLimitState
normalize_login_rate_limit_state state now config =
    if leb (state.window_started_at + config.window_seconds * 1000) now
    then (record { attempt_count = 0; window_started_at = now; blocked_until = none })
    else state

abbrev retry_after : Option ℕ → ℕ → Option ℕ
retry_after none now = none
retry_after (some until) now =
    if leb until now then none else some (max 1 ((until - now + 999) / 1000))

unfoldable pub login_retry_after_seconds : LoginRateLimitState → ℕ → Option ℕ
login_retry_after_seconds state now = retry_after state.blocked_until now

-- The state after a failure in a window that has not ended.
unfoldable pub count_failure : LoginRateLimitState → ℕ → LoginRateLimitConfig → LoginRateLimitState
count_failure normalized now config = record {
  attempt_count = normalized.attempt_count + 1;
  window_started_at = normalized.window_started_at;
  blocked_until =
      if leb config.maximum_attempts (normalized.attempt_count + 1)
      then some (now + config.block_seconds * 1000)
      else none;
}

unfoldable pub register_login_failure :
    LoginRateLimitState → ℕ → LoginRateLimitConfig → LoginRateLimitState
unfolding normalize_login_rate_limit_state count_failure
register_login_failure state now config =
    count_failure (normalize_login_rate_limit_state state now config) now config

pub record IsValid (config : LoginRateLimitConfig) : Type 0 where
  pub attempts : (2 ≤ config.maximum_attempts) × (config.maximum_attempts ≤ 100)
  pub window : (60 ≤ config.window_seconds) × (config.window_seconds ≤ 86400)
  pub block : (60 ≤ config.block_seconds) × (config.block_seconds ≤ 86400)

bounded_environment_integer_bounds :
    (value : Option JsNumber) (fallback minimum maximum : ℕ) {n : ℕ}
    → bounded_environment_integer value fallback minimum maximum ≡ ok n
    → (minimum ≤ n) × (n ≤ maximum)
unfolding bounded_environment_integer
bounded_environment_integer_bounds value fallback minimum maximum {n} h =
    let read : safe_integer_between minimum maximum (or_else value fallback) ≡ some n =
      ground arith in
    let (low, high, _) =
      safe_integer_between_bounds minimum maximum (or_else value fallback) read in
    (low, high)

-- Whatever the environment, a configuration that is read lies within its bounds.
pub get_login_rate_limit_config-IsValid :
    (attempts window block : Option JsNumber) {config : LoginRateLimitConfig}
    → get_login_rate_limit_config attempts window block ≡ ok config
    → IsValid config
unfolding get_login_rate_limit_config
get_login_rate_limit_config-IsValid attempts window block h =
    let (m, em, h) = >>=-ok (bounded_environment_integer attempts 5 2 100) _ h in
    let (w, ew, h) = >>=-ok (bounded_environment_integer window 900 60 86400) _ h in
    let (b, eb, h) = >>=-ok (bounded_environment_integer block 900 60 86400) _ h in
    let m_bounds = bounded_environment_integer_bounds attempts 5 2 100 em in
    let w_bounds = bounded_environment_integer_bounds window 900 60 86400 ew in
    let b_bounds = bounded_environment_integer_bounds block 900 60 86400 eb in ground arith

-- Failures one after the other, at the given times.
unfoldable pub register_failures :
    LoginRateLimitConfig → LoginRateLimitState → List ℕ → LoginRateLimitState
register_failures config state [] = state
register_failures config state (now ∷ times) =
    register_failures config (register_login_failure state now config) times

-- The times lie in the window that starts at `start`.
abbrev pub Within : LoginRateLimitConfig → ℕ → ℕ → Type 0
Within config start now = now < start + config.window_seconds * 1000

register_login_failure-Within :
    (config : LoginRateLimitConfig) (state : LoginRateLimitState) (now : ℕ)
    → Within config state.window_started_at now
    → register_login_failure state now config ≡ count_failure state now config
unfolding register_login_failure normalize_login_rate_limit_state
register_login_failure-Within config state now h = ground arith

register_failures_count :
    (config : LoginRateLimitConfig) (state : LoginRateLimitState) (times : List ℕ)
    → All (Within config state.window_started_at) times
    → ((register_failures config state times).attempt_count ≡ state.attempt_count + length times)
      × ((register_failures config state times).window_started_at ≡ state.window_started_at)
unfolding register_failures count_failure
register_failures_count config state [] h = (omega arith, refl)
register_failures_count config state (now ∷ times) (h, k) =
    let (count, start) = register_failures_count config (count_failure state now config) times k in
    rw (register_failures, register_login_failure-Within config state now h) (omega arith, start)

-- A failure after the end of the window starts a new one.
register_login_failure-reset :
    (config : LoginRateLimitConfig) (state : LoginRateLimitState) (now : ℕ)
    → state.window_started_at + config.window_seconds * 1000 ≤ now
    → 2 ≤ config.maximum_attempts
    → register_login_failure state now config
      ≡ (record { attempt_count = 1; window_started_at = now; blocked_until = none })
unfolding register_login_failure normalize_login_rate_limit_state count_failure
register_login_failure-reset config state now h few = ground arith

-- The wait that is asked for at `time` under a state whose window has been looked at then.
abbrev pub wait_at : LoginRateLimitConfig → LoginRateLimitState → ℕ → Option ℕ
wait_at config state time =
    login_retry_after_seconds (normalize_login_rate_limit_state state time config) time

wait_iff :
    (config : LoginRateLimitConfig) (state : LoginRateLimitState) (until time seconds : ℕ)
    → state.blocked_until ≡ some until
    → (wait_at config state time ≡ some seconds) ↔ (
        (time < state.window_started_at + config.window_seconds * 1000)
        × (time < until)
        × (until ≤ time + seconds * 1000)
        × (time + seconds * 1000 < until + 1000))
unfolding login_retry_after_seconds normalize_login_rate_limit_state
wait_iff config state until time seconds e = (λ h. ground arith, λ (a, b, c, d). ground arith)

no_wait :
    (config : LoginRateLimitConfig) (state : LoginRateLimitState) (time : ℕ)
    → state.blocked_until ≡ none
    → wait_at config state time ≡ none
unfolding login_retry_after_seconds normalize_login_rate_limit_state
no_wait config state time e = ground arith

-- The state of an address without failures.
abbrev pub no_failure : ℕ → LoginRateLimitState
no_failure start = record { attempt_count = 0; window_started_at = start; blocked_until = none }

abbrev pub one_failure : ℕ → LoginRateLimitState
one_failure now = record { attempt_count = 1; window_started_at = now; blocked_until = none }

-- The address has not failed before, or the window of its failures has ended.
abbrev pub IsOver : LoginRateLimitConfig → LoginRateLimitState → ℕ → Type 0
IsOver config old now =
    (old ≡ no_failure now) ⊎ (old.window_started_at + config.window_seconds * 1000 ≤ now)

register_login_failure-first :
    (config : LoginRateLimitConfig) (old : LoginRateLimitState) (now : ℕ)
    → IsValid config
    → IsOver config old now
    → register_login_failure old now config ≡ one_failure now
unfolding register_login_failure normalize_login_rate_limit_state count_failure
register_login_failure-first config old now valid (inl e) =
    let few = valid.attempts in let wide = valid.window in rw e (ground arith)
register_login_failure-first config old now valid (inr h) =
    register_login_failure-reset config old now h valid.attempts.0

-- The state after a failure in a window, by the failures before it.
count_failure-wait :
    (config : LoginRateLimitConfig) (state : LoginRateLimitState) (now time seconds : ℕ)
    → (wait_at config (count_failure state now config) time ≡ some seconds) ↔ (
        (config.maximum_attempts ≤ state.attempt_count + 1)
        × (time < state.window_started_at + config.window_seconds * 1000)
        × (time < now + config.block_seconds * 1000)
        × (now + config.block_seconds * 1000 ≤ time + seconds * 1000)
        × (time + seconds * 1000 < now + config.block_seconds * 1000 + 1000))
unfolding count_failure
count_failure-wait config state now time seconds =
    let after = count_failure state now config in
    let until = now + config.block_seconds * 1000 in
    elim (Bool-cases (leb config.maximum_attempts (state.attempt_count + 1))) [
      | inl e ↦
          let (there, back) = wait_iff config after until time seconds (rw e refl) in
          (
            λ h. let (a, b, c, d) = there h in (ground arith, a, b, c, d),
            λ (a, b, c, d, f). back (b, c, d, f),
          )
      | inr e ↦
          let quiet = no_wait config after time (rw e refl) in
          (λ h. absurd (cc), λ (a, b, c, d, f). absurd (ground arith))
    ]

-- After a first failure in a window, failures at any times within it and one more failure in it at
-- `now`, an attempt at any `time` is asked to wait exactly if the failures of the window reach the
-- maximum, the window has not ended at `time` and `blockSeconds` have not passed since `now`; the
-- wait is what is left of `blockSeconds` since `now`, rounded up to a second. The address had not
-- failed before, or its window had ended.
pub register_failures_block :
    (config : LoginRateLimitConfig) (old : LoginRateLimitState) (first : ℕ) (times : List ℕ)
    (now time seconds : ℕ)
    → IsValid config
    → IsOver config old first
    → All (Within config first) times
    → Within config first now
    → (wait_at config
          (register_login_failure (register_failures config old (first ∷ times)) now config)
          time
        ≡ some seconds)
      ↔ ((config.maximum_attempts ≤ length times + 2)
          × (time < first + config.window_seconds * 1000)
          × (time < now + config.block_seconds * 1000)
          × (now + config.block_seconds * 1000 ≤ time + seconds * 1000)
          × (time + seconds * 1000 < now + config.block_seconds * 1000 + 1000))
unfolding register_failures
register_failures_block config old first times now time seconds valid over h k =
    let (count, same) = register_failures_count config (one_failure first) times h in
    let state = register_failures config (one_failure first) times in
    let within : Within config state.window_started_at now = omega arith in
    let (there, back) = count_failure-wait config state now time seconds in
    rw
      (
        register_login_failure-first config old first valid over,
        register_login_failure-Within config state now within,
      )
      (
        λ e. let (a, b, c, d, f) = there e in (omega arith, omega arith, c, d, f),
        λ (a, b, c, d, f). back (omega arith, omega arith, c, d, f),
      )
