-- ===== src/Store.antt =====
-- The PostgreSQL tables that the job services read and write (migrations/), as lists of rows, and
-- a transaction (`withTransaction`, lib/db.ts) as a function of the tables that may throw. NOW() is
-- the start of the transaction, in milliseconds. Row identifiers drawn by `randomUUID` for
-- attempts, events and audit records are left out, since nothing reads them.
pub mod Tables
use ai_research_workbench.Common.{
  ℕ, ◌+◌, ◌≡◌, Bool, true, false, ◌&&◌, not, Option, none, some, List, [], ◌∷◌, ◌++◌, map, nat_eq,
  if◌then◌else◌, find, any, Text, text_eq,
}
use ai_research_workbench.Common.Outcome.{
  Outcome, ok, throw, Thrown, error, unique_violation, ◌>>=◌ as bind_outcome,
}
use ai_research_workbench.Store.Tables.{
  Db, JobRow, JobAttempt, JobEvent, AuditEvent, RunRow, StageRow,
}

-- The body of a transaction.
abbrev pub Tx : Type 0 → Type 0
Tx A = Db → Outcome (A × Db)

unfoldable pub pure : {A : Type 0} → A → Tx A
pure a db = ok (a, db)

unfoldable pub fail : {A : Type 0} → Thrown → Tx A
fail e db = throw e

abbrev pub after : {A B : Type 0} → (A → Tx B) → A × Db → Outcome (B × Db)
after f (a, db) = f a db

-- `if (!test) throw e`, and a call that touches no table.
unfoldable pub guard : Bool → Thrown → Tx (Unit {0})
guard true e db = ok (tt, db)
guard false e db = throw e

abbrev pub lift_to : {A : Type 0} → Db → Outcome A → Outcome (A × Db)
lift_to db (ok a) = ok (a, db)
lift_to db (throw e) = throw e

unfoldable pub lift : {A : Type 0} → Outcome A → Tx A
lift m db = lift_to db m

unfoldable pub gets : {A : Type 0} → (Db → A) → Tx A
gets f db = ok (f db, db)

infixl 5 ◌>>=◌ ◌>>◌
unfoldable pub ◌>>=◌ : {A B : Type 0} → Tx A → (A → Tx B) → Tx B
unfolding pure fail guard lift gets
◌>>=◌ m f db = bind_outcome (m db) (after f)

abbrev pub ◌>>◌ : {B : Type 0} → Tx (Unit {0}) → Tx B → Tx B
m >> k = m >>= λ _. k

-- COMMIT keeps what the body wrote; a throw is a ROLLBACK to the tables as they were.
abbrev pub commit : {A : Type 0} → Db → Outcome (A × Db) → Outcome A × Db
commit db (ok (a, db')) = (ok a, db')
commit db (throw e) = (throw e, db)

unfoldable pub with_transaction : {A : Type 0} → Tx A → Db → Outcome A × Db
with_transaction body db = commit db (body db)

-- `id` is the primary key of a table: the row read under a lock is the one that an
-- `UPDATE … WHERE id = $1` replaces.
unfoldable pub find_job : Text → List JobRow → Option JobRow
find_job id = find (λ j. text_eq j.id id)

unfoldable pub replace_job : JobRow → List JobRow → List JobRow
replace_job new = map (λ j. if text_eq j.id new.id then new else j)

unfoldable pub write_job : JobRow → Tx (Unit {0})
write_job new db = ok (tt, record db { jobs = replace_job new db.jobs })

unfoldable pub replace_run : RunRow → List RunRow → List RunRow
replace_run new = map (λ r. if text_eq r.id new.id then new else r)

unfoldable pub write_run : RunRow → Tx (Unit {0})
write_run new db = ok (tt, record db { runs = replace_run new db.runs })

unfoldable pub replace_stage : StageRow → List StageRow → List StageRow
replace_stage new = map (λ r. if text_eq r.id new.id then new else r)

unfoldable pub write_stage : StageRow → Tx (Unit {0})
write_stage new db = ok (tt, record db { stages = replace_stage new db.stages })

unfoldable pub write_event : JobEvent → Tx (Unit {0})
write_event e db = ok (tt, record db { events = db.events ++ e ∷ [] })

-- `writeAuditEvent` (lib/services/audit.ts), without the states before and after.
unfoldable pub write_audit_event : AuditEvent → Tx (Unit {0})
write_audit_event e db = ok (tt, record db { audit = db.audit ++ e ∷ [] })

-- `WHERE job_id = $1 AND attempt_number = $2`
unfoldable pub is_attempt : Text → ℕ → JobAttempt → Bool
is_attempt job_id number a = text_eq a.job_id job_id && nat_eq a.attempt_number number

-- An INSERT into `job_attempts` fails on its UNIQUE (job_id, attempt_number).
unfoldable pub insert_attempt : JobAttempt → Tx (Unit {0})
unfolding is_attempt
insert_attempt new db =
    if any (is_attempt new.job_id new.attempt_number) db.attempts
    then throw (error unique_violation)
    else ok (tt, record db { attempts = db.attempts ++ new ∷ [] })

unfoldable pub update_attempt : Text → ℕ → (JobAttempt → JobAttempt) → Tx (Unit {0})
update_attempt job_id number f db = ok (
  tt,
  record db { attempts = map (λ a. if is_attempt job_id number a then f a else a) db.attempts },
)
