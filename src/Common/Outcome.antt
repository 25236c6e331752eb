-- ===== src/Common/Outcome.antt =====
-- What a call throws (lib/services/errors.ts and plain `Error`s), and calls that may throw.
-- The human-readable messages are left out.
use Prim.Native.Nat.{ℕ}
use mathlib.Core.Path.{◌≡◌, refl}
use mathlib.Core.Logic.{◌⊎◌, inl, inr}
use mathlib.Core.Bool.{Bool, true, false}

-- The `code` of an `AppError`.
pub data Code : Type 0 where
  not_found job_lease_lost stale_job_version job_run_link_broken : Code
  job_submission_conflict idempotency_key_reused : Code
  invalid_job_configuration invalid_job_input invalid_job_output : Code
  job_input_too_large job_output_too_large : Code
  pipeline_stage_restart_required job_not_retryable : Code
  stage_dependency_incomplete run_not_executable stage_not_running stage_not_succeeded : Code
  stale_stage_generation stage_not_restartable run_has_active_job : Code
  idempotency_request_incomplete idempotency_response_invalid : Code
  idempotency_response_too_large scope_approval_required plan_approval_required : Code

-- What a plain `Error` is about.
pub data Message : Type 0 where
  invalid_job_transition invalid_run_transition invalid_stage_transition : Message
  invalid_number invalid_retry_policy invalid_jitter_ratio invalid_random invalid_retry_after :
      Message
  invalid_date invalid_max_age invalid_citation_ids qa_approval_blocked : Message
  catalog_incomplete catalog_not_unique unknown_stage invalid_ordinal invalid_dependency : Message
  unique_violation integer_out_of_range foreign_key_violation invalid_scheduled_at
        invalid_rate_policy rate_window_missing invalid_ttl extraction_not_ready
        invalid_chunking_options too_many_chunks invalid_model_pricing invalid_url
        disallowed_address dns_failure redirect_loop too_many_redirects invalid_redirect
        fetch_timeout response_too_large unsupported_mime_type http_error fetch_failed
        document_malformed document_too_large extraction_limit_exceeded :
      Message

pub data Thrown : Type 0 where
  app_error : ℕ → Code → Thrown
  error : Message → Thrown

pub data Outcome {ℓ} (A : Type ℓ) : Type ℓ where
  ok : A → Outcome A
  throw : Thrown → Outcome A

infixl 5 ◌>>=◌ ◌>>◌
abbrev pub ◌>>=◌ {ℓ κ} : {A : Type ℓ} {B : Type κ} → Outcome A → (A → Outcome B) → Outcome B
ok a >>= f = f a
throw e >>= f = throw e

abbrev pub ◌>>◌ {ℓ} : {B : Type ℓ} → Outcome (Unit {0}) → Outcome B → Outcome B
m >> k = m >>= λ _. k

-- `if (!test) throw e`
abbrev pub require : Bool → Thrown → Outcome (Unit {0})
require true e = ok tt
require false e = throw e

-- `notFound(resource)` and `conflict(code, message)`
abbrev pub not_found_error : Thrown
not_found_error = app_error 404 not_found

abbrev pub conflict : Code → Thrown
conflict = app_error 409

-- A chain that returned: its first call returned, and so did the rest.
pub >>=-ok {ℓ κ} :
    {A : Type ℓ} {B : Type κ} (call : Outcome A) (rest : A → Outcome B) {y : B}
    → (call >>= rest) ≡ ok y
    → (x : A) × (call ≡ ok x) × (rest x ≡ ok y)
>>=-ok (ok x) rest e = (x, refl, e)
>>=-ok (throw _) rest e = cc

pub ok_same {ℓ} : {A : Type ℓ} {a b : A} → ok a ≡ ok b → a ≡ b
ok_same h = cc

pub Outcome-cases {ℓ} :
    {A : Type ℓ} (m : Outcome A) → ((a : A) × (m ≡ ok a)) ⊎ ((e : Thrown) × (m ≡ throw e))
Outcome-cases (ok a) = inl (a, refl)
Outcome-cases (throw e) = inr (e, refl)
