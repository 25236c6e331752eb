-- ===== src/Providers/Limits.antt =====
-- lib/services/provider-limits.ts: permits for calls of a provider, by a window of requests and a
-- number of calls at a time. The table of windows is a function of its primary key, the provider and
-- the operation. Times are in milliseconds. Each function is one transaction.
pub mod Bounds
pub mod Grants
use ai_research_workbench.Common.{
  ℕ, ◌+◌, ◌-◌, ◌*◌, Bool, true, false, not, ◌&&◌, Option, none, some, List, [], ◌∷◌, ◌++◌, map,
  filter, any, find, length, leb, ltb, nat_eq, if◌then◌else◌, is_some, Text, text_eq,
}
use ai_research_workbench.Common.Number.{JsNumber, safe_integer_between}
use ai_research_workbench.Common.Outcome.{
  Outcome, ok, throw, ◌>>=◌, error, invalid_rate_policy, invalid_ttl, unique_violation,
}

-- ProviderLimitPolicy, as it is passed in and once it is validated.
pub record PolicyInput : Type 0 where
  pub request_limit : JsNumber
  pub window_seconds : JsNumber
  pub concurrency_limit : JsNumber
  pub permit_ttl_ms : JsNumber

pub record ProviderLimitPolicy : Type 0 where
  pub request_limit : ℕ
  pub window_seconds : ℕ
  pub concurrency_limit : ℕ
  pub permit_ttl_ms : ℕ

pub record RateWindow : Type 0 where
  pub window_started_at : ℕ
  pub window_seconds : ℕ
  pub request_limit : ℕ
  pub concurrency_limit : ℕ
  pub request_count : ℕ
  pub in_flight : ℕ

pub record Permit : Type 0 where
  pub id : Text
  pub provider : Text
  pub operation : Text
  pub owner_id : Text
  pub job_id : Option Text
  pub expires_at : ℕ
  pub released_at : Option ℕ

pub record Limits : Type 0 where
  pub now : ℕ
  pub windows : Text → Text → Option RateWindow
  pub permits : List Permit

pub data Decision : Type 0 where
  allowed : Text → Decision
  request_window concurrency : ℕ → Decision

abbrev in_range : Option ℕ → Outcome ℕ
in_range none = throw (error invalid_rate_policy)
in_range (some n) = ok n

unfoldable pub validate_policy : PolicyInput → Outcome ProviderLimitPolicy
validate_policy policy =
    in_range (safe_integer_between 1 1000000 policy.request_limit) >>= λ requests.
    in_range (safe_integer_between 1 86400 policy.window_seconds) >>= λ seconds.
    in_range (safe_integer_between 1 10000 policy.concurrency_limit) >>= λ calls.
    in_range (safe_integer_between 1 3600000 policy.permit_ttl_ms) >>= λ ttl. ok (record {
      request_limit = requests;
      window_seconds = seconds;
      concurrency_limit = calls;
      permit_ttl_ms = ttl;
    })

-- `UPDATE provider_rate_windows … WHERE provider = $1 AND operation = $2`
unfoldable pub write_window :
    Text → Text → RateWindow → (Text → Text → Option RateWindow) → Text → Text → Option RateWindow
write_window provider operation new windows p o =
    if text_eq p provider && text_eq o operation then some new else windows p o

-- The row that an INSERT … ON CONFLICT DO NOTHING leaves.
unfoldable pub window_or_new : ProviderLimitPolicy → ℕ → Option RateWindow → RateWindow
window_or_new policy now (some window) = window
window_or_new policy now none = record {
  window_started_at = now;
  window_seconds = policy.window_seconds;
  request_limit = policy.request_limit;
  concurrency_limit = policy.concurrency_limit;
  request_count = 0;
  in_flight = 0;
}

unfoldable pub window_expired : ProviderLimitPolicy → ℕ → RateWindow → Bool
window_expired policy now window = leb (window.window_started_at + policy.window_seconds * 1000) now

-- The window as it is after the reset, if it had ended.
unfoldable pub current_window : ProviderLimitPolicy → ℕ → RateWindow → RateWindow
unfolding window_expired
current_window policy now window =
    if window_expired policy now window
    then record window {
      window_started_at = now;
      request_count = 0;
      window_seconds = policy.window_seconds;
      request_limit = policy.request_limit;
      concurrency_limit = policy.concurrency_limit;
    }
    else window

unfoldable pub belongs : Text → Text → Permit → Bool
belongs provider operation p = text_eq p.provider provider && text_eq p.operation operation

-- `released_at IS NULL AND expires_at > NOW()`
unfoldable pub is_live : ℕ → Permit → Bool
is_live now p = not (is_some p.released_at) && ltb now p.expires_at

unfoldable pub live_permits : Text → Text → ℕ → List Permit → ℕ
unfolding belongs is_live
live_permits provider operation now permits =
    length (filter (λ p. belongs provider operation p && is_live now p) permits)

-- Permits of the key that have expired are released.
unfoldable pub release_expired : Text → Text → ℕ → List Permit → List Permit
unfolding belongs
release_expired provider operation now permits =
    map
      (λ p.
        if belongs provider operation p && not (is_some p.released_at) && leb p.expires_at now
        then record p { released_at = some now }
        else p)
      permits

unfoldable pub retry_after_window : ProviderLimitPolicy → ℕ → RateWindow → ℕ
unfolding window_expired
retry_after_window policy now window =
    if window_expired policy now window
    then policy.window_seconds * 1000
    else window.window_started_at + policy.window_seconds * 1000 - now

-- The arguments of `acquireProviderPermit`; `permit_id` is the identifier that is drawn.
pub record AcquireInput : Type 0 where
  pub permit_id : Text
  pub provider : Text
  pub operation : Text
  pub owner_id : Text
  pub job_id : Option Text

unfoldable pub granted_window : ProviderLimitPolicy → ℕ → RateWindow → RateWindow
granted_window policy in_flight window = record window {
  request_count = window.request_count + 1;
  in_flight = in_flight + 1;
  window_seconds = policy.window_seconds;
  request_limit = policy.request_limit;
  concurrency_limit = policy.concurrency_limit;
}

unfoldable pub new_permit : ProviderLimitPolicy → AcquireInput → ℕ → Permit
new_permit policy input now = record {
  id = input.permit_id;
  provider = input.provider;
  operation = input.operation;
  owner_id = input.owner_id;
  job_id = input.job_id;
  expires_at = now + policy.permit_ttl_ms;
  released_at = none;
}

-- The transaction: what is decided, and the tables after it.
unfoldable pub acquire : ProviderLimitPolicy → AcquireInput → Limits → Outcome (Decision × Limits)
acquire policy input s =
    let locked = window_or_new policy s.now (s.windows input.provider input.operation) in
    let window = current_window policy s.now locked in
    let permits = release_expired input.provider input.operation s.now s.permits in
    let in_flight = live_permits input.provider input.operation s.now permits in
    let write = λ (w : RateWindow). write_window input.provider input.operation w s.windows in
    if leb policy.concurrency_limit in_flight
    then ok (
      concurrency 250,
      record s { windows = write (record window { in_flight = in_flight }); permits = permits },
    )
    else if leb policy.request_limit window.request_count
    then ok (
      request_window (retry_after_window policy s.now locked),
      record s { windows = write window; permits = permits },
    )
    else if any (λ p. text_eq p.id input.permit_id) permits
    then throw (error unique_violation)
    else ok (
      allowed input.permit_id,
      record s {
        windows = write (granted_window policy in_flight window);
        permits = permits ++ new_permit policy input s.now ∷ [];
      },
    )

unfoldable pub acquire_provider_permit :
    PolicyInput → AcquireInput → Limits → Outcome (Decision × Limits)
acquire_provider_permit policy input s = validate_policy policy >>= λ valid. acquire valid input s

abbrev ttl_or_throw : Option ℕ → Outcome ℕ
ttl_or_throw none = throw (error invalid_ttl)
ttl_or_throw (some n) = ok n

-- `WHERE id = $1 AND owner_id = $2`
unfoldable pub is_held_by : Text → Text → Permit → Bool
is_held_by permit_id owner_id p = text_eq p.id permit_id && text_eq p.owner_id owner_id

unfoldable pub extend_provider_permit : Text → Text → JsNumber → Limits → Outcome (Bool × Limits)
unfolding is_held_by is_live
extend_provider_permit permit_id owner_id ttl s =
    ttl_or_throw (safe_integer_between 1 3600000 ttl) >>= λ ms.
    let test = λ (p : Permit). is_held_by permit_id owner_id p && is_live s.now p in
    ok (
      nat_eq (length (filter test s.permits)) 1,
      record s {
        permits = map (λ p. if test p then record p { expires_at = s.now + ms } else p) s.permits;
      },
    )

abbrev recount : Text → Text → ℕ → Option RateWindow → Option RateWindow
recount provider operation in_flight none = none
recount provider operation in_flight (some window) = some (record window { in_flight = in_flight })

-- The window of a key with its calls counted anew, where there is one.
unfoldable pub recount_window :
    Text → Text → ℕ → (Text → Text → Option RateWindow) → Text → Text → Option RateWindow
recount_window provider operation in_flight windows p o =
    if text_eq p provider && text_eq o operation
    then recount provider operation in_flight (windows p o)
    else windows p o

abbrev after_release : Option Permit → List Permit → Limits → Bool × Limits
after_release none permits s = (false, s)
after_release (some permit) permits s = (
  true,
  record s {
    permits = permits;
    windows =
        recount_window permit.provider permit.operation
          (live_permits permit.provider permit.operation s.now permits) s.windows;
  },
)

unfoldable pub release_provider_permit : Text → Text → Limits → Bool × Limits
unfolding is_held_by
release_provider_permit permit_id owner_id s =
    let test = λ (p : Permit). is_held_by permit_id owner_id p && not (is_some p.released_at) in
    after_release (find test s.permits)
      (map (λ p. if test p then record p { released_at = some s.now } else p) s.permits) s
