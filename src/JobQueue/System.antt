-- ===== src/JobQueue/System.antt =====
-- The queue as a system: any sequence of its operations, each in its own transaction, with time
-- passing between them. The run and stage tables may change in between.
use ai_research_workbench.Common.{
  ℕ, ◌+◌, Bool, Bool-cases, inl, inr, subst, sym, if◌then◌else◌, Option, List, [], ◌∷◌, Text,
}
use ai_research_workbench.Common.Number.{JsNumber}
use ai_research_workbench.Common.Outcome.{Outcome, ok, throw}
use ai_research_workbench.Domain.Jobs.{JobErrorClass}
use ai_research_workbench.Store.{with_transaction}
use ai_research_workbench.Store.Tables.{Db, JobRow, RunRow, StageRow}
use ai_research_workbench.JobQueue.Cancel.{request_job_cancellation, manual_retry_job}
use ai_research_workbench.JobQueue.Claim.{ClaimInput, claim_jobs}
use ai_research_workbench.JobQueue.Lease.{
  start_job, heartbeat_job, complete_job, fail_job, acknowledge_job_cancellation, release_job_lease,
}
use ai_research_workbench.JobQueue.Recover.{
  recover_job, recover_all, recover_validated, recover_expired_jobs, after_candidate, is_not_found,
}
use ai_research_workbench.JobQueue.Submit.{SubmitInput, submit_job}
use ai_research_workbench.JobQueue.Invariant.{Good, with_transaction-Good}
use ai_research_workbench.JobQueue.Invariant.Claims.{Spec-claim_jobs}
use ai_research_workbench.JobQueue.Invariant.Leases.{
  Spec-start_job, Spec-heartbeat_job, Spec-complete_job, Spec-fail_job,
  Spec-acknowledge_job_cancellation, Spec-release_job_lease,
}
use ai_research_workbench.JobQueue.Invariant.Operators.{
  Spec-request_job_cancellation, Spec-manual_retry_job, Spec-recover_job,
}
use ai_research_workbench.JobQueue.Invariant.Submissions.{Spec-submit_job}

-- A call of an exported function of lib/services/jobs.ts, or the environment.
pub data Command : Type 0 where
  submit : SubmitInput → Command
  claim : (JobRow → Bool) → ClaimInput → Command
  start : Text → Text → Option ℕ → Command
  heartbeat : Text → Text → JsNumber → Command
  complete : Text → Text → Option Text → Command
  fail : Text → Text → JobErrorClass → Text → Option JsNumber → JsNumber → Command
  request_cancellation : Text → Text → Option Text → Bool → Command
  acknowledge_cancellation : Text → Text → Command
  release : Text → Text → Command
  recover : (Text → JsNumber) → JsNumber → Option (List Text) → Command
  manual_retry : Text → Option Text → Command
  pass_time : ℕ → Command
  set_runs : List RunRow → List StageRow → Command

module _ (hash : Text → Text) (id_le : Text → Text → Bool) where
  -- The tables after a call, whether it returns or throws.
  unfoldable pub run_command : Command → Db → Db
  run_command (submit s) db = (with_transaction (submit_job hash s) db).1
  run_command (claim locked input) db = (with_transaction (claim_jobs id_le locked input) db).1
  run_command (start id worker expected) db = (with_transaction (start_job id worker expected) db).1
  run_command (heartbeat id worker ms) db = (with_transaction (heartbeat_job id worker ms) db).1
  run_command (complete id worker output) db =
      (with_transaction (complete_job hash id worker output) db).1
  run_command (fail id worker class message after drawn) db =
      (with_transaction (fail_job id worker class message after drawn) db).1
  run_command (request_cancellation id by audit linked) db =
      (with_transaction (request_job_cancellation id by audit linked) db).1
  run_command (acknowledge_cancellation id worker) db =
      (with_transaction (acknowledge_job_cancellation id worker) db).1
  run_command (release id worker) db = (with_transaction (release_job_lease id worker) db).1
  run_command (recover draw limit run_ids) db = (recover_expired_jobs id_le draw limit run_ids db).1
  run_command (manual_retry id audit) db = (with_transaction (manual_retry_job id audit) db).1
  run_command (pass_time ms) db = record db { now = db.now + ms }
  run_command (set_runs runs stages) db = record db { runs = runs; stages = stages }

  unfoldable pub run_commands : List Command → Db → Db
  unfolding run_command
  run_commands [] db = db
  run_commands (c ∷ cs) db = run_commands cs (run_command c db)

-- Tables with no job.
abbrev pub empty_queue : ℕ → List Text → Db
empty_queue now projects = record {
  now = now;
  projects = projects;
  jobs = [];
  attempts = [];
  events = [];
  runs = [];
  stages = [];
  audit = [];
}

after_candidate-Good :
    (r : Outcome (Option JobRow)) (db : Db) (others : Outcome (List JobRow) × Db)
    → Good db
    → Good others.1
    → Good (after_candidate r db others).1
unfolding after_candidate
after_candidate-Good (ok recovered) db others g g' = g'
after_candidate-Good (throw e) db others g g' = elim (Bool-cases (is_not_found e)) [
  | inl h ↦ subst (λ b. Good (if b then others else (throw e, db)).1) (sym h) g'
  | inr h ↦ subst (λ b. Good (if b then others else (throw e, db)).1) (sym h) g
]

recover_all-Good :
    (run_ids : Option (List Text)) (draw : Text → JsNumber) (ids : List Text) (db : Db)
    → Good db
    → Good (recover_all run_ids draw ids db).1
unfolding recover_all
recover_all-Good run_ids draw [] db g = g
recover_all-Good run_ids draw (id ∷ ids) db g =
    let g' =
      with_transaction-Good (recover_job run_ids (draw id) id) db
        (Spec-recover_job run_ids (draw id) id) g in
    after_candidate-Good _ _ _ g' (recover_all-Good run_ids draw ids _ g')

recover_validated-Good :
    (id_le : Text → Text → Bool) (draw : Text → JsNumber) (limit : Outcome ℕ)
    (run_ids : Outcome (Option (List Text))) (db : Db)
    → Good db
    → Good (recover_validated id_le draw limit run_ids db).1
unfolding recover_validated
recover_validated-Good id_le draw (throw e) run_ids db g = g
recover_validated-Good id_le draw (ok limit) (throw e) db g = g
recover_validated-Good id_le draw (ok limit) (ok run_ids) db g =
    recover_all-Good run_ids draw _ db g

recover_expired_jobs-Good :
    (id_le : Text → Text → Bool) (draw : Text → JsNumber) (limit : JsNumber)
    (run_ids : Option (List Text)) (db : Db)
    → Good db
    → Good (recover_expired_jobs id_le draw limit run_ids db).1
unfolding recover_expired_jobs
recover_expired_jobs-Good id_le draw limit run_ids db g = recover_validated-Good id_le draw _ _ db g

module _ (hash : Text → Text) (id_le : Text → Text → Bool) where
  run_command-Good : (c : Command) (db : Db) → Good db → Good (run_command hash id_le c db)
  unfolding run_command
  run_command-Good (submit s) db g = with_transaction-Good _ db (Spec-submit_job hash s) g
  run_command-Good (claim locked input) db g =
      with_transaction-Good _ db (Spec-claim_jobs id_le locked input) g
  run_command-Good (start id worker expected) db g =
      with_transaction-Good _ db (Spec-start_job id worker expected) g
  run_command-Good (heartbeat id worker ms) db g =
      with_transaction-Good _ db (Spec-heartbeat_job id worker ms) g
  run_command-Good (complete id worker output) db g =
      with_transaction-Good _ db (Spec-complete_job hash id worker output) g
  run_command-Good (fail id worker class message after drawn) db g =
      with_transaction-Good _ db (Spec-fail_job id worker class message after drawn) g
  run_command-Good (request_cancellation id by audit linked) db g =
      with_transaction-Good _ db (Spec-request_job_cancellation id by audit linked) g
  run_command-Good (acknowledge_cancellation id worker) db g =
      with_transaction-Good _ db (Spec-acknowledge_job_cancellation id worker) g
  run_command-Good (release id worker) db g =
      with_transaction-Good _ db (Spec-release_job_lease id worker) g
  run_command-Good (recover draw limit run_ids) db g =
      recover_expired_jobs-Good id_le draw limit run_ids db g
  run_command-Good (manual_retry id audit) db g =
      with_transaction-Good _ db (Spec-manual_retry_job id audit) g
  run_command-Good (pass_time ms) db g = record { jobs = g.jobs; events = g.events }
  run_command-Good (set_runs runs stages) db g = record { jobs = g.jobs; events = g.events }

  pub run_commands-Good :
      (cs : List Command) (db : Db) → Good db → Good (run_commands hash id_le cs db)
  unfolding run_commands
  run_commands-Good [] db g = g
  run_commands-Good (c ∷ cs) db g = run_commands-Good cs _ (run_command-Good c db g)

  empty_queue-Good : (now : ℕ) (projects : List Text) → Good (empty_queue now projects)
  empty_queue-Good now projects = record { jobs = tt; events = tt }

  -- After any calls of the queue's functions, in any order and with any arguments, returning or
  -- throwing, from a queue with no job and with time passing and the run and stage tables changing
  -- between calls: in every job an owner, an expiry time and a heartbeat are set exactly if its
  -- status is active and a completion time exactly if it is terminal, its attempts are at most
  -- its positive maximum, an active job has an attempt and a succeeded one an output hash; and
  -- every recorded event with a status before and after is a permitted transition.
  pub reachable-Good :
      (cs : List Command) (now : ℕ) (projects : List Text)
      → Good (run_commands hash id_le cs (empty_queue now projects))
  reachable-Good cs now projects = run_commands-Good cs _ (empty_queue-Good now projects)
