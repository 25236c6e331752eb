-- ===== src/JobQueue/Invariant.antt =====
-- What holds of the tables between two transactions, and rules to prove that a body keeps it.
pub mod Rows
pub mod Locks
pub mod Linked
pub mod Leases
pub mod Claims
pub mod Operators
pub mod Submissions
use ai_research_workbench.Common.{
  ℕ, ◌≤◌, ◌≡◌, refl, Bool, true, false, Option, none, some, List, [], ◌∷◌, ◌++◌, map, arith, All,
  All-append, any, find, All-find, Option-cases, Bool-cases, inl, inr, sym, subst, is_some,
  if◌then◌else◌, Text, text_eq,
}
use ai_research_workbench.Common.Outcome.{Outcome, ok, throw, Thrown, >>=-ok, Outcome-cases}
use ai_research_workbench.Domain.Jobs.{
  JobStatus, succeeded, can_transition_job, is_terminal_job_status,
}
use ai_research_workbench.Store.{
  Tx, pure, fail, after, ◌>>=◌, guard, lift, gets, find_job, replace_job, write_job, write_event,
  write_run, write_stage, write_audit_event, replace_run, replace_stage, is_attempt, update_attempt,
  insert_attempt, with_transaction,
}
use ai_research_workbench.Store.Tables.{
  Db, JobRow, JobEvent, JobAttempt, RunRow, StageRow, AuditEvent,
}
use ai_research_workbench.JobQueue.Linked.{is_active, when}

-- A lease is held exactly by an active job, a job is completed exactly if its status is terminal,
-- and its attempts satisfy the table's check.
pub record IsValid (j : JobRow) : Type 0 where
  pub within : j.attempts ≤ j.max_attempts
  pub positive : 1 ≤ j.max_attempts
  pub owner : is_some j.lease_owner ≡ is_active j.status
  pub expiry : is_some j.lease_expires_at ≡ is_active j.status
  pub heartbeat : is_some j.heartbeat_at ≡ is_active j.status
  pub completed : is_some j.completed_at ≡ is_terminal_job_status j.status
  pub tried : is_active j.status ≡ true → 1 ≤ j.attempts
  pub result : j.status ≡ succeeded → is_some j.output_hash ≡ true

-- An event that names the status before and after is a permitted transition.
abbrev pub permitted : Option JobStatus → Option JobStatus → Bool
permitted none to = true
permitted (some from) none = false
permitted (some from) (some to) = can_transition_job from to

abbrev pub IsPermitted : JobEvent → Type 0
IsPermitted e = permitted e.from_status e.to_status ≡ true

pub record Good (db : Db) : Type 0 where
  pub jobs : All IsValid db.jobs
  pub events : All IsPermitted db.events

-- From good tables, a body that returns leaves good tables and a value with the property.
pub record Spec {A : Type 0} (m : Tx A) (Q : A → Type 0) : Type 0 where
  pub at : (db : Db) → Good db → (r : A × Db) → m db ≡ ok r → Good r.1 × Q r.0

module _ {A B : Type 0} {Q : A → Type 0} {R : B → Type 0} where
  pub Spec-bind :
      {m : Tx A} {f : A → Tx B} → Spec m Q → ((a : A) → Q a → Spec (f a) R) → Spec (m >>= f) R
  unfolding ◌>>=◌
  Spec-bind {m} {f} sm sf = record {
    at = λ db g r h.
        let (p, e, e') = >>=-ok (m db) (after f) h in
        let (g', q) = sm.at db g p e in (sf p.0 q).at p.1 g' r e';
  }

module _ {A : Type 0} where
  -- A step that returns `a` in good tables.
  returned :
      (Q : A → Type 0) (a : A) (db : Db)
      → Good db
      → Q a
      → (r : A × Db) → ok (a, db) ≡ ok r
      → Good r.1 × Q r.0
  returned Q a db g q r h =
      let same : (a, db) ≡ r = cc in subst (λ (p : A × Db). Good p.1 × Q p.0) same (g, q)

  pub Spec-pure : (Q : A → Type 0) (a : A) → Q a → Spec (pure a) Q
  unfolding pure
  Spec-pure Q a q = record { at = λ db g r h. returned Q a db g q r h }

  pub Spec-fail : (Q : A → Type 0) (e : Thrown) → Spec (fail e) Q
  unfolding fail
  Spec-fail Q e = record { at = λ db g r h. absurd (cc) }

  pub Spec-lift : (m : Outcome A) → Spec (lift m) (λ a. m ≡ ok a)
  unfolding lift
  Spec-lift (ok a) = record { at = λ db g r h. returned (λ b. ok a ≡ ok b) a db g refl r h }
  Spec-lift (throw e) = record { at = λ db g r h. absurd (cc) }

  pub Spec-gets : (Q : A → Type 0) (f : Db → A) → ((db : Db) → Good db → Q (f db)) → Spec (gets f) Q
  unfolding gets
  Spec-gets Q f q = record { at = λ db g r h. returned Q (f db) db g (q db g) r h }

abbrev pub True : {A : Type 0} → A → Type 0
True _ = Unit

pub Spec-guard : (b : Bool) (e : Thrown) → Spec (guard b e) (λ _. b ≡ true)
unfolding guard
Spec-guard true e = record { at = λ db g r h. returned (λ _. true ≡ true) tt db g refl r h }
Spec-guard false e = record { at = λ db g r h. absurd (cc) }

pub Spec-if :
    {A : Type 0} {Q : A → Type 0} (b : Bool) (m n : Tx A)
    → (b ≡ true → Spec m Q)
    → (b ≡ false → Spec n Q)
    → Spec (if b then m else n) Q
Spec-if true m n sm sn = sm refl
Spec-if false m n sm sn = sn refl

pub Spec-when : (b : Bool) (m : Tx (Unit {0})) → Spec m True → Spec (when b m) True
unfolding when
Spec-when true m s = s
Spec-when false m s = Spec-pure True tt tt

-- Steps that write no job and no event.
abbrev SameJobs : Db → Db → Type 0
SameJobs db db' = (db'.jobs ≡ db.jobs) × (db'.events ≡ db.events)

pub Spec-quiet : (f : Db → Db) → ((db : Db) → SameJobs db (f db)) → Spec (λ db. ok (tt, f db)) True
Spec-quiet f same = record {
  at = λ db g r h.
      returned True tt (f db)
        (record {
          jobs = subst (All IsValid) (sym (same db).0) g.jobs;
          events = subst (All IsPermitted) (sym (same db).1) g.events;
        })
        tt r h;
}

pub Spec-write_run : (new : RunRow) → Spec (write_run new) True
unfolding write_run
Spec-write_run new =
    Spec-quiet (λ db. (record db { runs = replace_run new db.runs })) (λ db. (refl, refl))

pub Spec-write_stage : (new : StageRow) → Spec (write_stage new) True
unfolding write_stage
Spec-write_stage new =
    Spec-quiet (λ db. (record db { stages = replace_stage new db.stages })) (λ db. (refl, refl))

pub Spec-write_audit_event : (e : AuditEvent) → Spec (write_audit_event e) True
unfolding write_audit_event
Spec-write_audit_event e =
    Spec-quiet (λ db. (record db { audit = db.audit ++ e ∷ [] })) (λ db. (refl, refl))

pub Spec-update_attempt :
    (id : Text) (n : ℕ) (f : JobAttempt → JobAttempt) → Spec (update_attempt id n f) True
unfolding update_attempt
Spec-update_attempt id n f =
    Spec-quiet
      (λ db. (record db { attempts = map (λ a. if is_attempt id n a then f a else a) db.attempts }))
      (λ db. (refl, refl))

pub Spec-insert_attempt : (a : JobAttempt) → Spec (insert_attempt a) True
unfolding insert_attempt
Spec-insert_attempt a = record {
  at = λ db g r h. elim (Bool-cases (any (is_attempt a.job_id a.attempt_number) db.attempts)) [
    | inl e ↦ let h' = rw e at h in absurd (cc)
    | inr e ↦
        let h' = rw e at h in
        returned True tt (record db { attempts = db.attempts ++ a ∷ [] })
          (record { jobs = g.jobs; events = g.events }) tt r h'
  ];
}

-- Steps that do.
replace_job-IsValid :
    (new : JobRow) (js : List JobRow)
    → IsValid new
    → All IsValid js
    → All IsValid (replace_job new js)
unfolding replace_job
replace_job-IsValid new [] v h = tt
replace_job-IsValid new (j ∷ js) v h = elim (Bool-cases (text_eq j.id new.id)) [
  | inl e ↦ rw e (v, replace_job-IsValid new js v h.1)
  | inr e ↦ rw e (h.0, replace_job-IsValid new js v h.1)
]

pub Spec-write_job : (new : JobRow) → IsValid new → Spec (write_job new) True
unfolding write_job
Spec-write_job new v = record {
  at = λ db g r h.
      returned True tt (record db { jobs = replace_job new db.jobs })
        (record { jobs = replace_job-IsValid new db.jobs v g.jobs; events = g.events }) tt r h;
}

pub Spec-write_event : (e : JobEvent) → IsPermitted e → Spec (write_event e) True
unfolding write_event
Spec-write_event e p = record {
  at = λ db g r h.
      returned True tt (record db { events = db.events ++ e ∷ [] })
        (record {
          jobs = g.jobs;
          events = All-append IsPermitted db.events (e ∷ []) g.events (p, tt);
        })
        tt r h;
}

-- A job that is read from good tables is valid.
abbrev pub Found : Option JobRow → Type 0
Found o = (j : JobRow) → o ≡ some j → IsValid j

pub Spec-find_job : (id : Text) → Spec (gets (λ db. find_job id db.jobs)) Found
unfolding find_job
Spec-find_job id =
    Spec-gets Found (λ db. find_job id db.jobs)
      (λ db g j e. (All-find IsValid (λ k. text_eq k.id id) db.jobs g.jobs e).0)

-- A transaction keeps good tables, whether its body returns or throws.
pub with_transaction-Good :
    {A : Type 0} {Q : A → Type 0} (m : Tx A) (db : Db)
    → Spec m Q
    → Good db
    → Good (with_transaction m db).1
unfolding with_transaction
with_transaction-Good m db s g = elim (Outcome-cases (m db)) [
  | inl (r, e) ↦ rw e (s.at db g r e).0
  | inr (t, e) ↦ rw e g
]
