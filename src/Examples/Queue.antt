-- ===== src/Examples/Queue.antt =====
-- Calls of the job queue.
use ai_research_workbench.Common.{
  ◌⊎◌, ℕ, ◌≡◌, ◌≢◌, refl, Bool, false, none, some, List, [], ◌∷◌, leb, length, arith, All, Text,
  text_eq,
}
use ai_research_workbench.Common.Int.{pos}
use ai_research_workbench.Common.Number.{whole, millionths}
use ai_research_workbench.Common.Outcome.{
  Outcome, ok, throw, Thrown, conflict, idempotency_key_reused,
}
use ai_research_workbench.Domain.Jobs.{queued, claimed, assert_job_transition}
use ai_research_workbench.Domain.RetryPolicy.{
  default_job_retry_policy, policy_value, parse_job_retry_policy, finite_integer, ratio_or_throw,
  unit_ratio,
}
use ai_research_workbench.Store.{
  ◌>>=◌, with_transaction, find_job, write_job, write_event, insert_attempt, replace_job,
}
use ai_research_workbench.Store.Tables.{Db, JobRow}
use ai_research_workbench.JobQueue.Config.{
  bounded_text, bounded_integer, bounded_signed, bounded_run_ids, bounded_job_types,
  serialize_job_reference,
}
use ai_research_workbench.JobQueue.Claim.{
  ClaimInput, claim_jobs, candidates, is_candidate, order_jobs, insert_ordered, goes_before,
  write_claimed, record_claims, nothing_selected, claim_candidates,
}
use ai_research_workbench.JobQueue.Submit.{
  SubmitInput, new_job_row, trimmed_or_null, scheduled_time, submit_job, submit_job_in_transaction,
  is_project, insert_job, has_key, conflicts, references_exist,
}
use ai_research_workbench.JobQueue.System.{Command, run_commands, empty_queue, reachable-Good}
use ai_research_workbench.JobQueue.Fencing.{
  LeaseCall, Held, lease_call, accepted_statuses, lease_call-refused,
}
use ai_research_workbench.JobQueue.Exclusion.{claim_jobs-exclusive}
use ai_research_workbench.JobQueue.Idempotence.{submit_job-idempotent, IsAlike, submit_job-taken}
use ai_research_workbench.JobQueue.Invariant.{Good}
use ai_research_workbench.JobQueue.Rows.{claimed_row}

abbrev same_hash : Text → Text
same_hash t = t

abbrev shorter : Text → Text → Bool
shorter a b = leb (length a) (length b)

abbrev request : SubmitInput
request = record {
  id = 7 ∷ [];
  project_id = none;
  run_id = none;
  run_stage_id = none;
  stage = none;
  job_type = 50 ∷ [];
  candidate = some (49 ∷ []);
  idempotency_key = 51 ∷ [];
  correlation_id = none;
  parent_job_id = none;
  priority = none;
  max_attempts = some (whole 2);
  timeout_ms = none;
  retry_policy = none;
  scheduled_at = none;
}

abbrev claim_all : ClaimInput
claim_all = record {
  worker_id = 80 ∷ [];
  limit = whole 1;
  lease_duration_ms = whole 5000;
  job_types = none;
  run_ids = none;
}

abbrev none_locked : JobRow → Bool
none_locked j = false

abbrev session : List Command
session =
    Command.submit request
    ∷ Command.claim none_locked claim_all
    ∷ Command.start (7 ∷ []) (80 ∷ []) none
    ∷ Command.pass_time 6000
    ∷ Command.recover (λ id. millionths 500000) (whole 10) none
    ∷ []

reachable-Good_example : Good (run_commands same_hash shorter session (empty_queue 1000 []))
reachable-Good_example = reachable-Good same_hash shorter session 1000 []

-- A job that waits.
abbrev waiting_job : JobRow
waiting_job = record {
  id = 7 ∷ [];
  project_id = none;
  run_id = none;
  run_stage_id = none;
  stage = none;
  job_type = 50 ∷ [];
  status = queued;
  priority = pos 0;
  idempotency_key = 51 ∷ [];
  input_reference = 49 ∷ [];
  input_hash = 49 ∷ [];
  output_reference = none;
  output_hash = none;
  attempts = 0;
  max_attempts = 2;
  scheduled_at = 1000;
  claimed_at = none;
  started_at = none;
  completed_at = none;
  lease_owner = none;
  lease_expires_at = none;
  heartbeat_at = none;
  timeout_ms = 300000;
  retry_policy = policy_value default_job_retry_policy;
  error_class = none;
  sanitized_error = none;
  cancellation_requested_at = none;
  parent_job_id = none;
  correlation_id = 7 ∷ [];
  updated_at = 1000;
  version = 0;
}

abbrev with_jobs : ℕ → List JobRow → Db
with_jobs now jobs = record (empty_queue now []) { jobs = jobs }

abbrev two_jobs : List JobRow
two_jobs = waiting_job ∷ record waiting_job { id = 9 ∷ []; idempotency_key = 52 ∷ [] } ∷ []

abbrev leased_job : JobRow
leased_job = record waiting_job {
  status = claimed;
  attempts = 1;
  lease_owner = some (80 ∷ []);
  lease_expires_at = some 6000;
  heartbeat_at = some 1000;
}

-- The lease has ended by then.
not-Held :
    ¬ Held
      (7 ∷ [])
      (80 ∷ [])
      (accepted_statuses LeaseCall.release)
      (with_jobs 7000 (leased_job ∷ []))
unfolding find_job text_eq
not-Held h = let found = h.found in let until = h.until in let current = h.current in ground arith

lease_call-refused_example :
    (e : Thrown) × (with_transaction
        (lease_call same_hash (7 ∷ []) (80 ∷ []) LeaseCall.release)
        (with_jobs 7000 (leased_job ∷ []))
      ≡ (throw e, with_jobs 7000 (leased_job ∷ [])))
lease_call-refused_example =
    lease_call-refused same_hash (7 ∷ []) (80 ∷ []) LeaseCall.release
      (with_jobs 7000 (leased_job ∷ [])) not-Held

abbrev value_of {ℓ} : {A : Type ℓ} → A → Outcome A → A
value_of a (ok b) = b
value_of a (throw _) = a

abbrev first_claim : List JobRow × Db
first_claim =
    value_of ([], empty_queue 0 [])
      (claim_jobs shorter none_locked claim_all (with_jobs 1000 two_jobs))

abbrev second_claim : List JobRow × Db
second_claim =
    value_of ([], empty_queue 0 [])
      (claim_jobs shorter none_locked claim_all (record first_claim.1 { now = 2000 }))

claim_jobs-exclusive_example :
    All (λ (k : JobRow). All (λ (j : JobRow). j.id ≢ k.id) second_claim.0) first_claim.0
unfolding claim_jobs bounded_text bounded_integer bounded_run_ids bounded_job_types candidates
    is_candidate order_jobs write_claimed record_claims nothing_selected claim_candidates ◌>>=◌
    write_job write_event insert_attempt assert_job_transition claimed_row insert_ordered
    goes_before replace_job text_eq
claim_jobs-exclusive_example =
    claim_jobs-exclusive shorter none_locked none_locked claim_all claim_all 2000
      (with_jobs 1000 two_jobs) first_claim.1 second_claim.1 first_claim.0 second_claim.0 refl refl

abbrev first_submission : (JobRow × Bool) × Db
first_submission =
    value_of ((waiting_job, false), empty_queue 0 [])
      (submit_job same_hash request (empty_queue 1000 []))

submit_job-idempotent_example :
    submit_job same_hash (record request { id = 8 ∷ [] }) (record first_submission.1 { now = 2000 })
    ≡ ok ((first_submission.0.0, false), record first_submission.1 { now = 2000 })
unfolding submit_job submit_job_in_transaction is_project insert_job new_job_row bounded_text
    bounded_signed bounded_integer parse_job_retry_policy serialize_job_reference scheduled_time
    trimmed_or_null conflicts references_exist ◌>>=◌ write_event finite_integer ratio_or_throw
    unit_ratio
submit_job-idempotent_example =
    submit_job-idempotent same_hash request (8 ∷ []) (8 ∷ []) 2000 (empty_queue 1000 [])
      first_submission.1 first_submission.0.0 first_submission.0.1 refl refl

abbrev other_request : SubmitInput
other_request = record request { id = 65 ∷ []; candidate = some (48 ∷ []) }

abbrev other_row : JobRow
other_row = value_of waiting_job (new_job_row same_hash other_request first_submission.1)

submit_job-taken_example :
    (IsAlike other_row first_submission.0.0
      × (with_transaction (submit_job same_hash other_request) first_submission.1
          ≡ (ok (first_submission.0.0, false), first_submission.1)))
    ⊎ ((¬ IsAlike other_row first_submission.0.0)
        × (with_transaction (submit_job same_hash other_request) first_submission.1
            ≡ (throw (conflict idempotency_key_reused), first_submission.1)))
unfolding submit_job submit_job_in_transaction is_project insert_job new_job_row bounded_text
    bounded_signed bounded_integer parse_job_retry_policy serialize_job_reference scheduled_time
    trimmed_or_null conflicts references_exist ◌>>=◌ write_event finite_integer ratio_or_throw
    unit_ratio has_key text_eq
submit_job-taken_example =
    submit_job-taken same_hash other_request first_submission.1 other_row first_submission.0.0 refl
      refl refl
