-- ===== src/JobQueue/Invariant/Submissions.antt =====
-- Submissions keep the tables good.
use ai_research_workbench.Common.{
  ℕ, ◌≤◌, ◌≡◌, refl, inl, inr, Bool, true, false, Option, none, some, [], ◌∷◌, ◌++◌, arith,
  All-append, All-find, Text,
}
use ai_research_workbench.Common.Number.{JsNumber, whole, safe_integer_between_bounds}
use ai_research_workbench.Common.Outcome.{ok, >>=-ok, Outcome-cases}
use ai_research_workbench.Domain.Jobs.{queued, is_terminal_job_status}
use ai_research_workbench.Domain.RetryPolicy.{
  policy_value, default_job_retry_policy, parse_job_retry_policy,
}
use ai_research_workbench.Store.{lift}
use ai_research_workbench.Store.Tables.{Db, JobRow}
use ai_research_workbench.JobQueue.Config.{
  input, bounded_integer, bounded_signed, bounded_text, serialize_job_reference,
}
use ai_research_workbench.JobQueue.Linked.{is_active}
use ai_research_workbench.JobQueue.Submit.{
  SubmitInput, or_default, scheduled_time, new_job_row, has_key, insert_job, return_existing,
  submit_job_in_transaction, submit_job,
}
use ai_research_workbench.JobQueue.Invariant.{
  IsValid, Spec, True, Found, returned, Spec-bind, Spec-pure, Spec-fail, Spec-gets, Spec-guard,
  Spec-if, Spec-write_event,
}
use ai_research_workbench.JobQueue.Invariant.Locks.{Spec-read}

bounded_integer_low :
    (v : JsNumber) (low high : ℕ) {n : ℕ} → bounded_integer v low high ≡ ok n → low ≤ n
unfolding bounded_integer
bounded_integer_low v low high h = ground (arith, safe_integer_between_bounds low high v)

-- A new job waits, unleased, with at least one attempt.
fresh-IsValid :
    (j : JobRow)
    → j.status ≡ queued
    → j.attempts ≡ 0
    → 1 ≤ j.max_attempts
    → j.lease_owner ≡ none
    → j.lease_expires_at ≡ none
    → j.heartbeat_at ≡ none
    → j.completed_at ≡ none
    → IsValid j
unfolding is_active is_terminal_job_status
fresh-IsValid j s a m o e h c = ground arith

pub new_job_row-IsValid :
    (hash : Text → Text) (s : SubmitInput) (db : Db) {j : JobRow}
    → new_job_row hash s db ≡ ok j
    → IsValid j
unfolding new_job_row
new_job_row-IsValid hash s db {j} h =
    let (type, _, h) = >>=-ok (bounded_text s.job_type 200) _ h in
    let (key, _, h) = >>=-ok (bounded_text s.idempotency_key 500) _ h in
    let (correlation, _, h) = >>=-ok (bounded_text (or_default s.correlation_id s.id) 500) _ h in
    let (priority, _, h) =
      >>=-ok (bounded_signed (or_default s.priority (whole 0)) 1000 1000) _ h in
    let (most, low, h) = >>=-ok (bounded_integer (or_default s.max_attempts (whole 3)) 1 100) _ h in
    let (timeout, _, h) =
      >>=-ok (bounded_integer (or_default s.timeout_ms (whole 300000)) 1 86400000) _ h in
    let (policy, _, h) =
      >>=-ok
        (parse_job_retry_policy (or_default s.retry_policy (policy_value default_job_retry_policy)))
        _ h in
    let (reference, _, h) = >>=-ok (serialize_job_reference s.candidate input) _ h in
    let (time, _, h) = >>=-ok (scheduled_time s.scheduled_at db.now) _ h in
    let least = bounded_integer_low (or_default s.max_attempts (whole 3)) 1 100 low in
    let attempts : j.max_attempts ≡ most = ground arith in
    fresh-IsValid j (ground arith) (ground arith) (omega arith) (ground arith) (ground arith)
      (ground arith) (ground arith)

Spec-append :
    (new : JobRow)
    → IsValid new
    → Spec (λ db. ok (tt, record db { jobs = db.jobs ++ new ∷ [] })) True
Spec-append new v = record {
  at = λ db g r h.
      returned True tt (record db { jobs = db.jobs ++ new ∷ [] })
        (record { jobs = All-append IsValid db.jobs (new ∷ []) g.jobs (v, tt); events = g.events })
        tt r h;
}

-- The INSERT of a valid row.
Spec-insert_job : (new : JobRow) → IsValid new → Spec (insert_job new) (λ r. IsValid r.0)
unfolding insert_job
Spec-insert_job new v = Spec-bind (Spec-read _) λ sound _. Spec-bind (Spec-guard sound _) λ _ _.
    Spec-bind (Spec-append new v) λ _ _.
      Spec-bind (Spec-write_event _ refl)
        λ _ _. Spec-pure (λ (r : JobRow × Bool). IsValid r.0) (new, true) v

Spec-return_existing :
    (new : JobRow) (o : Option JobRow) → Found o → Spec (return_existing new o) (λ r. IsValid r.0)
unfolding return_existing
Spec-return_existing new none f = Spec-fail (λ (r : JobRow × Bool). IsValid r.0) _
Spec-return_existing new (some j) f =
    Spec-bind (Spec-guard _ _)
      λ _ _. Spec-pure (λ (r : JobRow × Bool). IsValid r.0) (j, false) (f j refl)

Spec-new :
    (hash : Text → Text) (s : SubmitInput) → Spec (λ db. lift (new_job_row hash s db) db) IsValid
unfolding lift
Spec-new hash s = record {
  at = λ db g r h. elim (Outcome-cases (new_job_row hash s db)) [
    | inl (j, e) ↦
        let h' = rw e at h in returned IsValid j db g (new_job_row-IsValid hash s db e) r h'
    | inr (t, e) ↦ let h' = rw e at h in absurd (cc)
  ];
}

pub Spec-submit_job_in_transaction :
    (hash : Text → Text) (s : SubmitInput)
    → Spec (submit_job_in_transaction hash s) (λ r. IsValid r.0)
unfolding submit_job_in_transaction
Spec-submit_job_in_transaction hash s = Spec-bind (Spec-new hash s) λ new v.
    Spec-bind (Spec-read _) λ taken _.
      Spec-bind
        (Spec-gets Found _ (λ db g j e.
          (All-find IsValid (has_key new.project_id new.idempotency_key) db.jobs g.jobs e).0))
        λ existing f.
          Spec-if taken (return_existing new existing) (insert_job new)
            (λ _. Spec-return_existing new existing f) (λ _. Spec-insert_job new v)

pub Spec-submit_job :
    (hash : Text → Text) (s : SubmitInput) → Spec (submit_job hash s) (λ r. IsValid r.0)
unfolding submit_job
Spec-submit_job hash s =
    Spec-bind (Spec-read _)
      λ there _. Spec-bind (Spec-guard there _) λ _ _. Spec-submit_job_in_transaction hash s
