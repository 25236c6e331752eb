-- ===== src/JobQueue/Fencing.antt =====
-- The worker that does not hold the lease of a job changes nothing.
use ai_research_workbench.Common.{
  ℕ, ◌<◌, ◌≡◌, refl, ap, true, Option, none, some, List, [], ◌∷◌, arith, includes, inl, inr, Text,
  text_eq_iff, Text_eq,
}
use ai_research_workbench.Common.Number.{JsNumber}
use ai_research_workbench.Common.Outcome.{ok, throw, Thrown, Outcome-cases}
use ai_research_workbench.Domain.Jobs.{
  JobStatus, JobStatus_eq, claimed, running, cancellation_requested, JobErrorClass,
}
use ai_research_workbench.Store.{Tx, ◌>>=◌, find_job, with_transaction}
use ai_research_workbench.Store.Tables.{Db, JobRow}
use ai_research_workbench.JobQueue.Config.{bounded_text}
use ai_research_workbench.JobQueue.Lock.{is_owner, lease_current, holds_lease, lock_owned_job}
use ai_research_workbench.JobQueue.Lease.{
  leased_statuses, start_job, heartbeat_job, complete_job, fail_job, acknowledge_job_cancellation,
  release_job_lease,
}
use ai_research_workbench.JobQueue.Returns.{lift-returns, lock_owned_job-returns}

-- The calls that a worker makes for a job that it holds.
pub data LeaseCall : Type 0 where
  start : Option ℕ → LeaseCall
  heartbeat : JsNumber → LeaseCall
  complete : Option Text → LeaseCall
  fail : JobErrorClass → Text → Option JsNumber → JsNumber → LeaseCall
  acknowledge_cancellation release : LeaseCall

unfoldable pub lease_call : (Text → Text) → Text → Text → LeaseCall → Tx JobRow
lease_call hash id worker (start version) = start_job id worker version
lease_call hash id worker (heartbeat ms) = heartbeat_job id worker ms
lease_call hash id worker (complete output) = complete_job hash id worker output
lease_call hash id worker (fail class message after drawn) =
    fail_job id worker class message after drawn
lease_call hash id worker acknowledge_cancellation = acknowledge_job_cancellation id worker
lease_call hash id worker release = release_job_lease id worker

-- The statuses in which a call is accepted.
abbrev pub accepted_statuses : LeaseCall → List JobStatus
accepted_statuses (start _) = claimed ∷ []
accepted_statuses (heartbeat _) = leased_statuses
accepted_statuses (complete _) = running ∷ []
accepted_statuses (fail _ _ _ _) = claimed ∷ running ∷ []
accepted_statuses acknowledge_cancellation = cancellation_requested ∷ []
accepted_statuses release = leased_statuses

-- The job is there, in one of the statuses, and leased to the worker until after now.
pub record Held (id worker_id : Text) (allowed : List JobStatus) (db : Db) : Type 0 where
  pub worker : Text
  pub job : JobRow
  pub expiry : ℕ
  pub named : bounded_text worker_id 500 ≡ ok worker
  pub found : find_job id db.jobs ≡ some job
  pub owned : job.lease_owner ≡ some worker
  pub until : job.lease_expires_at ≡ some expiry
  pub current : db.now < expiry
  pub status : includes allowed job.status ≡ true

is_owner-eq : (o : Option Text) (w : Text) → is_owner o w ≡ true → o ≡ some w
unfolding is_owner
is_owner-eq none w h = absurd (cc)
is_owner-eq (some o) w h = ap some ((text_eq_iff o w).0 h)

lease_current-some :
    (o : Option ℕ) (now : ℕ) → lease_current o now ≡ true → (e : ℕ) × (o ≡ some e) × (now < e)
unfolding lease_current
lease_current-some none now h = absurd (cc)
lease_current-some (some e) now h = (e, refl, ground arith)

module _ {B : Type 0} (f : JobRow → Tx B) (db : Db) {r : B × Db} where
  lock_owned_job-Held :
      (id worker_id : Text) {worker : Text} (allowed : List JobStatus) (version : Option ℕ)
      → bounded_text worker_id 500 ≡ ok worker
      → (lock_owned_job id worker allowed version >>= f) db ≡ ok r
      → Held id worker_id allowed db
  unfolding holds_lease
  lock_owned_job-Held id worker_id {worker} allowed version e h =
      let (j, found, held, _, _) = lock_owned_job-returns f db id worker allowed version h in
      let (expiry, until, current) = lease_current-some j.lease_expires_at db.now (ground arith) in
      record {
        worker = worker;
        job = j;
        expiry = expiry;
        named = e;
        found = found;
        owned = is_owner-eq j.lease_owner worker (ground arith);
        until = until;
        current = current;
        status = ground arith;
      }

lease_call-Held :
    (hash : Text → Text) (id worker_id : Text) (call : LeaseCall) (db : Db) {r : JobRow × Db}
    → lease_call hash id worker_id call db ≡ ok r
    → Held id worker_id (accepted_statuses call) db
unfolding lease_call start_job heartbeat_job complete_job fail_job acknowledge_job_cancellation
    release_job_lease
lease_call-Held hash id w (start version) db h =
    let (_, e, h) = lift-returns _ db _ h in lock_owned_job-Held _ db id w _ _ e h
lease_call-Held hash id w (heartbeat ms) db h =
    let (_, e, h) = lift-returns _ db _ h in
    let (_, _, h) = lift-returns _ db _ h in lock_owned_job-Held _ db id w _ _ e h
lease_call-Held hash id w (complete output) db h =
    let (_, e, h) = lift-returns _ db _ h in
    let (_, _, h) = lift-returns _ db _ h in lock_owned_job-Held _ db id w _ _ e h
lease_call-Held hash id w (fail class message after drawn) db h =
    let (_, e, h) = lift-returns _ db _ h in lock_owned_job-Held _ db id w _ _ e h
lease_call-Held hash id w acknowledge_cancellation db h =
    let (_, e, h) = lift-returns _ db _ h in lock_owned_job-Held _ db id w _ _ e h
lease_call-Held hash id w release db h =
    let (_, e, h) = lift-returns _ db _ h in lock_owned_job-Held _ db id w _ _ e h

-- A call of a worker for a job that is not leased to it until after now in a status that the call
-- accepts throws, and leaves all tables as they are.
pub lease_call-refused :
    (hash : Text → Text) (id worker_id : Text) (call : LeaseCall) (db : Db)
    → ¬ Held id worker_id (accepted_statuses call) db
    → (e : Thrown) × (with_transaction (lease_call hash id worker_id call) db ≡ (throw e, db))
unfolding with_transaction
lease_call-refused hash id worker_id call db none_held =
    elim (Outcome-cases (lease_call hash id worker_id call db)) [
      | inl (r, e) ↦ absurd (none_held (lease_call-Held hash id worker_id call db e))
      | inr (t, e) ↦ (t, rw e refl)
    ]
