-- ===== src/JobQueue/Returns.antt =====
-- What a transaction's body did that returned: its first step returned, and so did the rest.
use ai_research_workbench.Common.{
  ℕ, ◌≡◌, refl, sym, ap, subst, [], ◌∷◌, Bool-cases, inl, inr, Bool, true, false, Option, none,
  some, List, Text, text_eq, text_eq_iff, arith,
}
use ai_research_workbench.Common.Outcome.{Outcome, ok, throw, Thrown, >>=-ok}
use ai_research_workbench.Domain.Jobs.{JobStatus}
use ai_research_workbench.Store.{Tx, pure, fail, after, ◌>>=◌, guard, lift, gets, find_job}
use ai_research_workbench.Store.Tables.{Db, JobRow}
use ai_research_workbench.JobQueue.Lock.{
  row_or, lock_job_project_first, holds_lease, version_matches, lock_owned_job,
}

module _ {A B : Type 0} (f : A → Tx B) (db : Db) {r : B × Db} where
  pub bind-returns :
      (m : Tx A) → (m >>= f) db ≡ ok r → (p : A × Db) × (m db ≡ ok p) × (f p.0 p.1 ≡ ok r)
  unfolding ◌>>=◌
  bind-returns m h = >>=-ok (m db) (after f) h

  pub lift-returns :
      (m : Outcome A) → (lift m >>= f) db ≡ ok r → (a : A) × (m ≡ ok a) × (f a db ≡ ok r)
  unfolding ◌>>=◌ lift
  lift-returns (ok a) h = (a, refl, h)
  lift-returns (throw e) h = absurd (cc)

  pub gets-returns : (g : Db → A) → (gets g >>= f) db ≡ ok r → f (g db) db ≡ ok r
  unfolding ◌>>=◌ gets
  gets-returns g h = h

  pub row_or-returns :
      (e : Thrown) (o : Option A)
      → (row_or e o >>= f) db ≡ ok r
      → (a : A) × (o ≡ some a) × (f a db ≡ ok r)
  unfolding ◌>>=◌ row_or pure fail
  row_or-returns e none h = absurd (cc)
  row_or-returns e (some a) h = (a, refl, h)

pub guard-returns :
    {B : Type 0} (f : Unit {0} → Tx B) (db : Db) {r : B × Db} (b : Bool) (e : Thrown)
    → (guard b e >>= f) db ≡ ok r
    → (b ≡ true) × (f tt db ≡ ok r)
unfolding ◌>>=◌ guard
guard-returns f db true e h = (refl, h)
guard-returns f db false e h = absurd (cc)

pub pure-returns : {B : Type 0} (b : B) (db : Db) {r : B × Db} → pure b db ≡ ok r → (b, db) ≡ r
unfolding pure
pure-returns b db h = ground arith

found-returns :
    {A : Type 0} (e : Thrown) (o : Option A) (db : Db) {r : A × Db}
    → row_or e o db ≡ ok r
    → (o ≡ some r.0) × (r.1 ≡ db)
unfolding row_or pure fail
found-returns e none db h = absurd (cc)
found-returns {A} e (some a) db {r} h =
    let same : (a, db) ≡ r = ground arith in
    (ap (λ (q : A × Db). some q.0) same, ap (λ (q : A × Db). q.1) (sym same))

lock_job_project_first-found :
    (id : Text) (db : Db) {r : JobRow × Db}
    → lock_job_project_first id db ≡ ok r
    → (find_job id db.jobs ≡ some r.0) × (r.1 ≡ db)
unfolding lock_job_project_first
lock_job_project_first-found id db {r} h =
    let h = gets-returns _ db _ h in
    let (seen, _, h) = row_or-returns _ db _ _ h in
    let h = gets-returns _ db _ h in
    let (_, h) = guard-returns _ db _ _ h in let h = gets-returns _ db _ h in found-returns _ _ db h

-- A row is found under its own identifier.
pub find_job-same :
    (id : Text) (jobs : List JobRow) {j : JobRow} → find_job id jobs ≡ some j → j.id ≡ id
unfolding find_job
find_job-same id (x ∷ jobs) {j} h = elim (Bool-cases (text_eq x.id id)) [
  | inl e ↦
      let at_x : x ≡ j = ground arith in subst (λ y. y.id ≡ id) at_x ((text_eq_iff x.id id).0 e)
  | inr e ↦ find_job-same id jobs {j = j} (ground arith)
]
find_job-same id [] h = absurd (cc)

module _ {B : Type 0} (f : JobRow → Tx B) (db : Db) {r : B × Db} where
  -- The row that a lock returns is that of the identifier, in tables as they were.
  pub lock_job_project_first-returns :
      (id : Text)
      → (lock_job_project_first id >>= f) db ≡ ok r
      → (j : JobRow) × (find_job id db.jobs ≡ some j) × (j.id ≡ id) × (f j db ≡ ok r)
  lock_job_project_first-returns id h =
      let (p, e, k) = bind-returns f db _ h in
      let (found, same) = lock_job_project_first-found id db e in
      (p.0, found, find_job-same id db.jobs found, subst (λ d. f p.0 d ≡ ok r) same k)

lock_owned_job-found :
    (id worker : Text) (allowed : List JobStatus) (version : Option ℕ) (db : Db) {r : JobRow × Db}
    → lock_owned_job id worker allowed version db ≡ ok r
    → (find_job id db.jobs ≡ some r.0)
      × (holds_lease worker allowed db.now r.0 ≡ true)
      × (version_matches version r.0.version ≡ true)
      × (r.1 ≡ db)
unfolding lock_owned_job
lock_owned_job-found id worker allowed version db {r} h =
    let (locked, first, same, h) = lock_job_project_first-returns _ db id h in
    let h = gets-returns _ db _ h in
    let (job, again, h) = row_or-returns _ db _ _ h in
    let h = gets-returns _ db _ h in
    let (held, h) = guard-returns _ db _ _ h in
    let (fits, h) = guard-returns _ db _ _ h in
    let last : (job, db) ≡ r = pure-returns job db h in
    let found : find_job id db.jobs ≡ some job =
      subst (λ i. find_job i db.jobs ≡ some job) same again in
    subst
      (λ (q : JobRow × Db).
        (find_job id db.jobs ≡ some q.0)
        × (holds_lease worker allowed db.now q.0 ≡ true)
        × (version_matches version q.0.version ≡ true)
        × (q.1 ≡ db))
      last (found, held, fits, refl)

module _ {B : Type 0} (f : JobRow → Tx B) (db : Db) {r : B × Db} where
  -- The row that `lockOwnedJob` returns is that of the identifier and its lease is held.
  pub lock_owned_job-returns :
      (id worker : Text) (allowed : List JobStatus) (version : Option ℕ)
      → (lock_owned_job id worker allowed version >>= f) db ≡ ok r
      → (j : JobRow) × (find_job id db.jobs ≡ some j)
        × (holds_lease worker allowed db.now j ≡ true)
        × (version_matches version j.version ≡ true)
        × (f j db ≡ ok r)
  lock_owned_job-returns id worker allowed version h =
      let (p, e, k) = bind-returns f db _ h in
      let (found, held, fits, same) = lock_owned_job-found id worker allowed version db e in
      (p.0, found, held, fits, subst (λ d. f p.0 d ≡ ok r) same k)
