-- ===== src/JobQueue/Submit.antt =====
-- lib/services/jobs.ts: `submitJobInTransaction` and `submitJob`, idempotent by project and key.
use ai_research_workbench.Common.{
  ℕ, Bool, true, false, ◌&&◌, ◌||◌, Option, none, some, [], ◌∷◌, ◌++◌, nat_eq, find, any, includes,
  length, if◌then◌else◌, Text, Text_eq, text_eq, trim,
}
use ai_research_workbench.Common.Int.{ℤ}
use ai_research_workbench.Common.Number.{JsNumber, whole}
use ai_research_workbench.Common.Outcome.{
  Outcome, ok, throw, error, foreign_key_violation, not_found_error, conflict,
  job_submission_conflict, idempotency_key_reused,
}
use ai_research_workbench.Common.Outcome
use ai_research_workbench.Domain.Jobs.{queued}
use ai_research_workbench.Domain.RetryPolicy.{
  JobRetryPolicy, PolicyValue, policy_value, default_job_retry_policy, parse_job_retry_policy,
}
use ai_research_workbench.Store.{Tx, pure, fail, ◌>>=◌, ◌>>◌, guard, lift, gets, write_event}
use ai_research_workbench.Store.Tables.{Db, JobRow, job_submitted}
use ai_research_workbench.JobQueue.Config.{
  input, configuration_error, bounded_integer, bounded_signed, bounded_text,
  serialize_job_reference,
}

-- SubmitJobInput; `candidate` is what `JSON.stringify` made of the input, and `scheduled_at` is
-- `some none` for an invalid date. `id` is the identifier that `randomUUID` drew.
pub record SubmitInput : Type 0 where
  pub id : Text
  pub project_id : Option Text
  pub run_id : Option Text
  pub run_stage_id : Option Text
  pub stage : Option Text
  pub job_type : Text
  pub candidate : Option Text
  pub idempotency_key : Text
  pub correlation_id : Option Text
  pub parent_job_id : Option Text
  pub priority : Option JsNumber
  pub max_attempts : Option JsNumber
  pub timeout_ms : Option JsNumber
  pub retry_policy : Option PolicyValue
  pub scheduled_at : Option (Option ℕ)

-- `value ?? fallback`
abbrev pub or_default {ℓ} : {A : Type ℓ} → Option A → A → A
or_default none a = a
or_default (some a) _ = a

-- `value?.trim() || null`
unfoldable pub trimmed_or_null : Option Text → Option Text
unfolding trim
trimmed_or_null none = none
trimmed_or_null (some t) = if nat_eq (length (trim t)) 0 then none else some (trim t)

-- `a IS NOT DISTINCT FROM b`
unfoldable pub same_text : Option Text → Option Text → Bool
same_text none none = true
same_text (some a) (some b) = text_eq a b
same_text _ _ = false

-- COALESCE($12, NOW()), once an invalid date is refused.
unfoldable pub scheduled_time : Option (Option ℕ) → ℕ → Outcome ℕ
scheduled_time none now = ok now
scheduled_time (some none) now = throw configuration_error
scheduled_time (some (some t)) now = ok t

-- The row of an INSERT, from the validated values.
abbrev pub submitted_row :
    SubmitInput → ℕ → Text → Text → Text → ℤ → ℕ → ℕ → JobRetryPolicy → Text → Text → ℕ → JobRow
submitted_row s now job_type key correlation priority max_attempts timeout policy reference
      input_hash scheduled =
    record {
      id = s.id;
      project_id = trimmed_or_null s.project_id;
      run_id = s.run_id;
      run_stage_id = s.run_stage_id;
      stage = s.stage;
      job_type = job_type;
      status = queued;
      priority = priority;
      idempotency_key = key;
      input_reference = reference;
      input_hash = input_hash;
      output_reference = none;
      output_hash = none;
      attempts = 0;
      max_attempts = max_attempts;
      scheduled_at = scheduled;
      claimed_at = none;
      started_at = none;
      completed_at = none;
      lease_owner = none;
      lease_expires_at = none;
      heartbeat_at = none;
      timeout_ms = timeout;
      retry_policy = policy_value policy;
      error_class = none;
      sanitized_error = none;
      cancellation_requested_at = none;
      parent_job_id = s.parent_job_id;
      correlation_id = correlation;
      updated_at = now;
      version = 0;
    }

-- The row that the INSERT would add.
unfoldable pub new_job_row : (Text → Text) → SubmitInput → Db → Outcome JobRow
new_job_row hash s db = Outcome.◌>>=◌ (bounded_text s.job_type 200) λ job_type.
    Outcome.◌>>=◌ (bounded_text s.idempotency_key 500) λ key.
      Outcome.◌>>=◌ (bounded_text (or_default s.correlation_id s.id) 500) λ correlation.
        Outcome.◌>>=◌ (bounded_signed (or_default s.priority (whole 0)) 1000 1000) λ priority.
          Outcome.◌>>=◌ (bounded_integer (or_default s.max_attempts (whole 3)) 1 100)
            λ max_attempts.
              Outcome.◌>>=◌ (bounded_integer (or_default s.timeout_ms (whole 300000)) 1 86400000)
                λ timeout.
                  Outcome.◌>>=◌
                    (parse_job_retry_policy
                      (or_default s.retry_policy (policy_value default_job_retry_policy)))
                    λ policy. Outcome.◌>>=◌ (serialize_job_reference s.candidate input) λ reference.
                      Outcome.◌>>=◌ (scheduled_time s.scheduled_at db.now) λ scheduled. ok (
                        submitted_row s db.now job_type key correlation priority max_attempts
                          timeout policy reference (hash reference) scheduled)

-- `project_id IS NOT DISTINCT FROM $1 AND idempotency_key = $2`
unfoldable pub has_key : Option Text → Text → JobRow → Bool
unfolding same_text
has_key project_id key j = same_text j.project_id project_id && text_eq j.idempotency_key key

-- A row with the same primary key or the same project and key, on which ON CONFLICT DO NOTHING.
unfoldable pub conflicts : JobRow → JobRow → Bool
conflicts new j = text_eq j.id new.id || has_key new.project_id new.idempotency_key j

project_there : Option Text → Db → Bool
project_there none db = true
project_there (some id) db = includes db.projects id

parent_there : Option Text → Db → Bool
parent_there none db = true
parent_there (some id) db = any (λ j. text_eq j.id id) db.jobs

-- (project_id, run_id) and (run_id, run_stage_id); a key with a NULL is not checked.
run_there : Option Text → Option Text → Db → Bool
run_there (some project_id) (some run_id) db =
    any (λ r. text_eq r.id run_id && text_eq r.project_id project_id) db.runs
run_there _ _ db = true

stage_there : Option Text → Option Text → Db → Bool
stage_there (some run_id) (some stage_id) db =
    any (λ s. text_eq s.id stage_id && text_eq s.run_id run_id) db.stages
stage_there _ _ db = true

-- The foreign keys of `jobs`.
unfoldable pub references_exist : JobRow → Db → Bool
unfolding project_there parent_there run_there stage_there
references_exist j db =
    project_there j.project_id db
    && run_there j.project_id j.run_id db
    && stage_there j.run_id j.run_stage_id db
    && parent_there j.parent_job_id db

-- The request is the one that made the job.
unfoldable pub same_request : JobRow → JobRow → Bool
unfolding same_text
same_request new j =
    text_eq j.job_type new.job_type
    && text_eq j.input_hash new.input_hash
    && same_text j.run_id new.run_id
    && same_text j.run_stage_id new.run_stage_id

unfoldable pub insert_job : JobRow → Tx (JobRow × Bool)
insert_job new = do
  sound ← gets (references_exist new)
  guard sound (error foreign_key_violation)
  (λ db. ok (tt, record db { jobs = db.jobs ++ new ∷ [] }))
  write_event (record {
    job_id = new.id;
    event_type = job_submitted;
    from_status = none;
    to_status = some queued;
    worker_id = none;
  })
  pure (new, true)

unfoldable pub return_existing : JobRow → Option JobRow → Tx (JobRow × Bool)
return_existing new none = fail (conflict job_submission_conflict)
return_existing new (some j) = do
  guard (same_request new j) (conflict idempotency_key_reused)
  pure (j, false)

-- The job, and whether it was created.
unfoldable pub submit_job_in_transaction : (Text → Text) → SubmitInput → Tx (JobRow × Bool)
submit_job_in_transaction hash s = do
  new ← (λ db. lift (new_job_row hash s db) db)
  taken ← gets (λ db. any (conflicts new) db.jobs)
  existing ← gets (λ db. find (has_key new.project_id new.idempotency_key) db.jobs)
  if taken then return_existing new existing else insert_job new

unfoldable pub is_project : Option Text → Db → Bool
is_project none db = true
is_project (some id) db = nat_eq (length id) 0 || includes db.projects id

unfoldable pub submit_job : (Text → Text) → SubmitInput → Tx (JobRow × Bool)
unfolding is_project
submit_job hash s = do
  there ← gets (is_project s.project_id)
  guard there not_found_error
  submit_job_in_transaction hash s
