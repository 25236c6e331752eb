-- ===== src/JobQueue/Resubmission.antt =====
-- The row that a request makes when it is sent again, and searches for rows of its key.
use ai_research_workbench.Common.{
  ℕ, ◌≡◌, inl, inr, refl, Bool, true, false, Option, none, some, List, [], ◌∷◌, ◌++◌, arith, find,
  any, Bool-cases, Text, text_eq_self,
}
use ai_research_workbench.Common.Outcome.{ok, >>=-ok}
use ai_research_workbench.Store.Tables.{Db, JobRow}
use ai_research_workbench.JobQueue.Config.{
  bounded_text, bounded_signed, bounded_integer, serialize_job_reference, input,
}
use ai_research_workbench.Common.Number.{whole}
use ai_research_workbench.Common.Int.{ℤ}
use ai_research_workbench.Domain.RetryPolicy.{
  JobRetryPolicy, parse_job_retry_policy, policy_value, default_job_retry_policy,
}
use ai_research_workbench.JobQueue.Submit.{
  SubmitInput, or_default, scheduled_time, submitted_row, new_job_row, has_key, same_text,
  conflicts, same_request,
}

scheduled_time-later :
    (o : Option (Option ℕ)) (now later : ℕ) {t : ℕ}
    → scheduled_time o now ≡ ok t
    → (t' : ℕ) × (scheduled_time o later ≡ ok t')
unfolding scheduled_time
scheduled_time-later none now later h = (later, refl)
scheduled_time-later (some none) now later h = absurd (cc)
scheduled_time-later (some (some t)) now later h = (t, refl)

correlation-later :
    (o : Option Text) (id id' : Text) {u c : Text}
    → bounded_text id' 500 ≡ ok u
    → bounded_text (or_default o id) 500 ≡ ok c
    → (c' : Text) × (bounded_text (or_default o id') 500 ≡ ok c')
correlation-later none id id' {u} h k = (u, h)
correlation-later (some t) id id' {u} {c} h k = (c, k)

-- What a submission is compared by.
abbrev pub SameKey : JobRow → JobRow → Type 0
SameKey new new' =
    (new'.project_id ≡ new.project_id)
    × (new'.idempotency_key ≡ new.idempotency_key)
    × (new'.job_type ≡ new.job_type)
    × (new'.input_hash ≡ new.input_hash)
    × (new'.run_id ≡ new.run_id)
    × (new'.run_stage_id ≡ new.run_stage_id)

new_job_row-ok :
    (hash : Text → Text) (s : SubmitInput) (db : Db) {job_type key correlation reference : Text}
    {priority : ℤ} {most timeout scheduled : ℕ} {policy : JobRetryPolicy}
    → bounded_text s.job_type 200 ≡ ok job_type
    → bounded_text s.idempotency_key 500 ≡ ok key
    → bounded_text (or_default s.correlation_id s.id) 500 ≡ ok correlation
    → bounded_signed (or_default s.priority (whole 0)) 1000 1000 ≡ ok priority
    → bounded_integer (or_default s.max_attempts (whole 3)) 1 100 ≡ ok most
    → bounded_integer (or_default s.timeout_ms (whole 300000)) 1 86400000 ≡ ok timeout
    → parse_job_retry_policy (or_default s.retry_policy (policy_value default_job_retry_policy))
      ≡ ok policy
    → serialize_job_reference s.candidate input ≡ ok reference
    → scheduled_time s.scheduled_at db.now ≡ ok scheduled
    → new_job_row hash s db
      ≡ ok (
          submitted_row s db.now job_type key correlation priority most timeout policy reference
            (hash reference)
            scheduled)
unfolding new_job_row
new_job_row-ok hash s db e1 e2 e3 e4 e5 e6 e7 e8 e9 = rw (e1, e2, e3, e4, e5, e6, e7, e8, e9) refl

pub new_job_row-later :
    (hash : Text → Text) (s : SubmitInput) (id u : Text) (db db' : Db) {new : JobRow}
    → bounded_text id 500 ≡ ok u
    → new_job_row hash s db ≡ ok new
    → (new' : JobRow) × (new_job_row hash (record s { id = id }) db' ≡ ok new') × SameKey new new'
unfolding new_job_row
new_job_row-later hash s id u db db' {new} hu h =
    let (job_type, e1, h) = >>=-ok (bounded_text s.job_type 200) _ h in
    let (key, e2, h) = >>=-ok (bounded_text s.idempotency_key 500) _ h in
    let (correlation, e3, h) = >>=-ok (bounded_text (or_default s.correlation_id s.id) 500) _ h in
    let (priority, e4, h) =
      >>=-ok (bounded_signed (or_default s.priority (whole 0)) 1000 1000) _ h in
    let (max_attempts, e5, h) =
      >>=-ok (bounded_integer (or_default s.max_attempts (whole 3)) 1 100) _ h in
    let (timeout, e6, h) =
      >>=-ok (bounded_integer (or_default s.timeout_ms (whole 300000)) 1 86400000) _ h in
    let (policy, e7, h) =
      >>=-ok
        (parse_job_retry_policy (or_default s.retry_policy (policy_value default_job_retry_policy)))
        _ h in
    let (reference, e8, h) = >>=-ok (serialize_job_reference s.candidate input) _ h in
    let (scheduled, e9, h) = >>=-ok (scheduled_time s.scheduled_at db.now) _ h in
    let (correlation', e3') = correlation-later s.correlation_id s.id id hu e3 in
    let (scheduled', e9') = scheduled_time-later s.scheduled_at db.now db'.now e9 in
    (
      submitted_row (record s { id = id }) db'.now job_type key correlation' priority max_attempts
          timeout policy reference (hash reference) scheduled',
      new_job_row-ok hash (record s { id = id }) db' e1 e2 e3' e4 e5 e6 e7 e8 e9',
      ground arith,
    )

-- The row is the first one of its project and key, and its request is the same.
abbrev pub Recorded : JobRow → JobRow → List JobRow → Type 0
Recorded new j jobs =
    (find (has_key new.project_id new.idempotency_key) jobs ≡ some j) × (same_request new j ≡ true)

module _ {A : Type 0} (p q : A → Bool) where
  pub find-append : (xs ys : List A) → find p xs ≡ none → find p (xs ++ ys) ≡ find p ys
  find-append [] ys h = refl
  find-append (x ∷ xs) ys h = ground (arith, find-append xs ys)

  pub any-find :
      ((x : A) → p x ≡ true → q x ≡ true)
      → (xs : List A) {a : A} → find p xs ≡ some a
      → any q xs ≡ true
  any-find i [] h = absurd (cc)
  any-find i (x ∷ xs) {a} h = elim (Bool-cases (p x)) [
    | inl e ↦ let k = i x e in ground arith
    | inr e ↦ let k = any-find i xs {a = a} (ground arith) in ground arith
  ]

  pub not_any-find :
      ((x : A) → p x ≡ true → q x ≡ true) → (xs : List A) → any q xs ≡ false → find p xs ≡ none
  not_any-find i [] h = refl
  not_any-find i (x ∷ xs) h = ground (arith, i x, not_any-find i xs)

pub has_key-conflicts :
    (new j : JobRow) → has_key new.project_id new.idempotency_key j ≡ true → conflicts new j ≡ true
unfolding conflicts
has_key-conflicts new j h = ground arith

same_text_self : (o : Option Text) → same_text o o ≡ true
unfolding same_text
same_text_self none = refl
same_text_self (some t) = text_eq_self t

-- A row has the key and is the request of one with the same key and request.
pub SameKey-has_key :
    (new new' : JobRow)
    → SameKey new new'
    → (has_key new'.project_id new'.idempotency_key new ≡ true) × (same_request new' new ≡ true)
unfolding has_key same_request
SameKey-has_key new new' (p, k, t, i, r, s) =
    rw (p, k, t, i, r, s)
      (ground (
        arith,
        text_eq_self new.idempotency_key,
        text_eq_self new.job_type,
        text_eq_self new.input_hash,
        same_text_self new.project_id,
        same_text_self new.run_id,
        same_text_self new.run_stage_id,
      ))
