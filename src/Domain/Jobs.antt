-- ===== src/Domain/Jobs.antt =====
-- lib/domain/jobs.ts: the life of a durable job, its retry policy and its failure classes.
pub mod Graph
use ai_research_workbench.Common.{
  ℕ, ◌≡◌, ◌↔◌, Bool, true, false, List, [], ◌∷◌, Equality, nat_eq, includes, arith,
}
use ai_research_workbench.Common.Outcome.{Outcome, error, require, invalid_job_transition}

-- JOB_STATUSES
pub data JobStatus : Type 0 where
  queued claimed running retry_wait cancellation_requested : JobStatus
  cancelled succeeded failed dead_letter : JobStatus

-- The position in JOB_STATUSES, which tells two statuses apart.
unfoldable pub status_index : JobStatus → ℕ
status_index queued = 0
status_index claimed = 1
status_index running = 2
status_index retry_wait = 3
status_index cancellation_requested = 4
status_index cancelled = 5
status_index succeeded = 6
status_index failed = 7
status_index dead_letter = 8

unfoldable pub status_eq : JobStatus → JobStatus → Bool
unfolding status_index
status_eq a b = nat_eq (status_index a) (status_index b)

pub status_eq_iff : (a b : JobStatus) → (status_eq a b ≡ true) ↔ (a ≡ b)
unfolding status_eq
status_eq_iff a b = ground arith

instance abbrev pub JobStatus_eq : Equality JobStatus
JobStatus_eq = record { same = status_eq; same_iff = status_eq_iff }

-- JOB_ERROR_CLASSES
pub data JobErrorClass : Type 0 where
  retryable_provider_rate_limit retryable_provider_server_error : JobErrorClass
  retryable_network retryable_storage retryable_timeout : JobErrorClass
  non_retryable_validation non_retryable_security : JobErrorClass
  non_retryable_budget non_retryable_user_input : JobErrorClass
  cancelled unknown : JobErrorClass

-- The table `transitions`.
unfoldable pub transitions : JobStatus → List JobStatus
transitions queued = claimed ∷ JobStatus.cancelled ∷ []
transitions claimed =
    running ∷ retry_wait ∷ cancellation_requested ∷ JobStatus.cancelled ∷ failed ∷ dead_letter ∷ []
transitions running =
    succeeded ∷ retry_wait ∷ cancellation_requested ∷ JobStatus.cancelled ∷ failed ∷ dead_letter
    ∷ []
transitions retry_wait = claimed ∷ queued ∷ JobStatus.cancelled ∷ []
transitions cancellation_requested = JobStatus.cancelled ∷ []
transitions JobStatus.cancelled = []
transitions succeeded = []
transitions failed = queued ∷ []
transitions dead_letter = queued ∷ []

unfoldable pub can_transition_job : JobStatus → JobStatus → Bool
unfolding transitions status_eq
can_transition_job from to = includes (transitions from) to

unfoldable pub assert_job_transition : JobStatus → JobStatus → Outcome (Unit {0})
unfolding can_transition_job
assert_job_transition from to = require (can_transition_job from to) (error invalid_job_transition)

unfoldable pub is_terminal_job_status : JobStatus → Bool
unfolding status_eq
is_terminal_job_status = includes (JobStatus.cancelled ∷ succeeded ∷ failed ∷ dead_letter ∷ [])

-- The set `retryableErrors`, as the test `retryableErrors.has`.
unfoldable pub is_retryable_job_error : JobErrorClass → Bool
is_retryable_job_error retryable_provider_rate_limit = true
is_retryable_job_error retryable_provider_server_error = true
is_retryable_job_error retryable_network = true
is_retryable_job_error retryable_storage = true
is_retryable_job_error retryable_timeout = true
is_retryable_job_error unknown = true
is_retryable_job_error _ = false
