-- ===== src/JobQueue/Idempotence.antt =====
-- `submitJob`: a request that is sent again returns the job that the first one made.
use ai_research_workbench.Common.{
  ℕ, ◌≡◌, refl, sym, ap, subst, ◌∙◌, Bool, true, false, Option, none, some, List, [], ◌∷◌, ◌++◌,
  arith, find, any, if◌then◌else◌, Text, Bool-cases, inl, inr, ◌⊎◌, ◌↔◌, text_eq_iff,
}
use ai_research_workbench.Common.Outcome.{ok, throw, conflict, idempotency_key_reused}
use ai_research_workbench.Store.{
  with_transaction, Tx, pure, fail, ◌>>=◌, guard, lift, gets, write_event,
}
use ai_research_workbench.Store.Tables.{Db, JobRow, JobEvent}
use ai_research_workbench.JobQueue.Config.{bounded_text}
use ai_research_workbench.JobQueue.Submit.{
  SubmitInput, same_text, new_job_row, has_key, conflicts, same_request, is_project, insert_job,
  return_existing, submit_job_in_transaction, submit_job,
}
use ai_research_workbench.JobQueue.Returns.{
  bind-returns, lift-returns, gets-returns, guard-returns, pure-returns,
}
use ai_research_workbench.JobQueue.Resubmission.{
  SameKey, new_job_row-later, Recorded, find-append, any-find, not_any-find, has_key-conflicts,
  SameKey-has_key,
}

write_event-tables :
    (e : JobEvent) (db : Db) {r : Unit {0} × Db}
    → write_event e db ≡ ok r
    → (r.1.jobs ≡ db.jobs) × (r.1.projects ≡ db.projects)
unfolding write_event
write_event-tables e db h = ground arith

-- A submission that created a job added it as the last row.
insert_job-returns :
    (new : JobRow) (db : Db) {r : (JobRow × Bool) × Db}
    → insert_job new db ≡ ok r
    → (r.0 ≡ (new, true)) × (r.1.jobs ≡ db.jobs ++ new ∷ []) × (r.1.projects ≡ db.projects)
unfolding insert_job
insert_job-returns new db {r} h =
    let h = gets-returns _ db _ h in
    let (sound, h) = guard-returns _ db _ _ h in
    let (p, e, h) = bind-returns _ db _ h in
    let (q, e', h) = bind-returns _ p.1 _ h in
    let last = pure-returns (new, true) q.1 h in
    let (jobs, projects) = write_event-tables _ p.1 e' in
    let jobs' : p.1.jobs ≡ db.jobs ++ new ∷ [] = ground arith in
    let projects' : p.1.projects ≡ db.projects = ground arith in
    subst
      (λ (t : (JobRow × Bool) × Db).
        (t.0 ≡ (new, true)) × (t.1.jobs ≡ db.jobs ++ new ∷ []) × (t.1.projects ≡ db.projects))
      last (refl, jobs ∙ jobs', projects ∙ projects')

return_existing-returns :
    (new : JobRow) (o : Option JobRow) (db : Db) {r : (JobRow × Bool) × Db}
    → return_existing new o db ≡ ok r
    → (o ≡ some r.0.0) × (same_request new r.0.0 ≡ true) × (r.1 ≡ db)
unfolding return_existing fail
return_existing-returns new none db h = absurd (cc)
return_existing-returns new (some j) db {r} h =
    let (same, h) = guard-returns _ db _ _ h in
    let last = pure-returns (j, false) db h in
    (
      ap (λ (q : (JobRow × Bool) × Db). some q.0.0) last,
      subst (λ (q : (JobRow × Bool) × Db). same_request new q.0.0 ≡ true) last same,
      ap (λ (q : (JobRow × Bool) × Db). q.1) (sym last),
    )

new-returns :
    {B : Type 0} (hash : Text → Text) (s : SubmitInput) (f : JobRow → Tx B) (db : Db) {r : B × Db}
    → ((λ db. lift (new_job_row hash s db) db) >>= f) db ≡ ok r
    → (new : JobRow) × (new_job_row hash s db ≡ ok new) × (f new db ≡ ok r)
unfolding ◌>>=◌ lift
new-returns hash s f db h = lift-returns f db (new_job_row hash s db) h

SameKey-self : (new : JobRow) → SameKey new new
SameKey-self new = (refl, refl, refl, refl, refl, refl)

-- Either branch leaves the job that is returned recorded.
branch-Recorded :
    (new : JobRow) (taken : Bool) (db : Db) {r : (JobRow × Bool) × Db}
    → any (conflicts new) db.jobs ≡ taken
    → (if taken
          then return_existing new (find (has_key new.project_id new.idempotency_key) db.jobs)
          else insert_job new)
        db
      ≡ ok r
    → Recorded new r.0.0 r.1.jobs × (r.1.projects ≡ db.projects)
branch-Recorded new true db {r} t h =
    let (found, same, still) = return_existing-returns new _ db h in
    subst (λ d. Recorded new r.0.0 d.jobs × (d.projects ≡ db.projects)) (sym still)
      ((found, same), refl)
branch-Recorded new false db {r} t h =
    let (made, jobs, projects) = insert_job-returns new db h in
    let key = has_key new.project_id new.idempotency_key in
    let (has, same) = SameKey-has_key new new (SameKey-self new) in
    let missing = not_any-find key (conflicts new) (λ j k. has_key-conflicts new j k) db.jobs t in
    let last = find-append key (conflicts new) db.jobs (new ∷ []) missing in
    let here : find key (new ∷ []) ≡ some new = ground arith in
    let job : r.0.0 ≡ new = ap (λ (q : JobRow × Bool). q.0) made in
    (
      subst (λ js. Recorded new r.0.0 js) (sym jobs)
          (subst (λ j. Recorded new j (db.jobs ++ new ∷ [])) (sym job) (last ∙ here, same)),
      projects,
    )

submit_job_in_transaction-Recorded :
    (hash : Text → Text) (s : SubmitInput) (db : Db) {r : (JobRow × Bool) × Db}
    → submit_job_in_transaction hash s db ≡ ok r
    → (new : JobRow) × (new_job_row hash s db ≡ ok new)
      × Recorded new r.0.0 r.1.jobs
      × (r.1.projects ≡ db.projects)
unfolding submit_job_in_transaction
submit_job_in_transaction-Recorded hash s db {r} h =
    let (new, e, h) = new-returns hash s _ db h in
    let h = gets-returns _ db _ h in
    let h = gets-returns _ db _ h in
    let (recorded, projects) = branch-Recorded new (any (conflicts new) db.jobs) db refl h in
    (new, e, recorded, projects)

SameKey-Recorded :
    (new new' j : JobRow) (jobs : List JobRow)
    → SameKey new new'
    → Recorded new j jobs
    → Recorded new' j jobs
unfolding same_request
SameKey-Recorded new new' j jobs (p, k, t, i, r, s) h = rw (p, k, t, i, r, s) h

-- A recorded job is returned to a request with the same key.
Recorded-returned :
    (hash : Text → Text) (s : SubmitInput) (db : Db) (new j : JobRow)
    → new_job_row hash s db ≡ ok new
    → Recorded new j db.jobs
    → submit_job_in_transaction hash s db ≡ ok ((j, false), db)
unfolding submit_job_in_transaction ◌>>=◌ lift gets return_existing guard pure
Recorded-returned hash s db new j e (found, alike) =
    let key = has_key new.project_id new.idempotency_key in
    let taken = any-find key (conflicts new) (λ k h. has_key-conflicts new k h) db.jobs found in
    rw (e, taken, found, alike) refl

is_project-same :
    (o : Option Text) (db db' : Db)
    → db'.projects ≡ db.projects
    → is_project o db ≡ true
    → is_project o db' ≡ true
unfolding is_project
is_project-same none db db' e h = refl
is_project-same (some id) db db' e h = rw e h

submit_job-known :
    (hash : Text → Text) (s : SubmitInput) (db : Db)
    → is_project s.project_id db ≡ true
    → submit_job hash s db ≡ submit_job_in_transaction hash s db
unfolding submit_job ◌>>=◌ gets guard
submit_job-known hash s db h = rw h refl

-- A request that is sent again, with another identifier and at another time, returns the job that
-- the first one returned, as one that was not created, and leaves all tables as they are. `id` is
-- the identifier drawn for the second request, a text of 1 to 500 units after trimming.
pub submit_job-idempotent :
    (hash : Text → Text) (s : SubmitInput) (id u : Text) (now : ℕ) (db db' : Db) (j : JobRow)
    (created : Bool)
    → bounded_text id 500 ≡ ok u
    → submit_job hash s db ≡ ok ((j, created), db')
    → submit_job hash (record s { id = id }) (record db' { now = now })
      ≡ ok ((j, false), record db' { now = now })
unfolding submit_job
submit_job-idempotent hash s id u now db db' j created hu h =
    let h = gets-returns _ db _ h in
    let (there, h) = guard-returns _ db _ _ h in
    let (new, e, recorded, projects) = submit_job_in_transaction-Recorded hash s db h in
    let (new', e', same) = new_job_row-later hash s id u db (record db' { now = now }) hu e in
    let again =
      Recorded-returned hash (record s { id = id }) (record db' { now = now }) new' j e'
        (SameKey-Recorded new new' j db'.jobs same recorded) in
    let known = is_project-same s.project_id db (record db' { now = now }) projects there in
    submit_job-known hash (record s { id = id }) (record db' { now = now }) known ∙ again

-- What the source compares of a stored job with a request of its key.
abbrev pub IsAlike : JobRow → JobRow → Type 0
IsAlike new j =
    (j.job_type ≡ new.job_type)
    × (j.input_hash ≡ new.input_hash)
    × (j.run_id ≡ new.run_id)
    × (j.run_stage_id ≡ new.run_stage_id)

same_text_iff : (a b : Option Text) → (same_text a b ≡ true) ↔ (a ≡ b)
unfolding same_text
same_text_iff none none = (λ h. refl, λ h. refl)
same_text_iff none (some t) = (λ h. absurd (cc), λ h. absurd (cc))
same_text_iff (some s) none = (λ h. absurd (cc), λ h. absurd (cc))
same_text_iff (some s) (some t) =
    let (there, back) = text_eq_iff s t in
    (λ h. ap (λ u. some u) (there h), λ h. back (ground arith))

same_request_iff : (new j : JobRow) → (same_request new j ≡ true) ↔ IsAlike new j
unfolding same_request
same_request_iff new j =
    let (t, t') = text_eq_iff j.job_type new.job_type in
    let (h, h') = text_eq_iff j.input_hash new.input_hash in
    let (r, r') = same_text_iff j.run_id new.run_id in
    let (s, s') = same_text_iff j.run_stage_id new.run_stage_id in
    (
      λ e. (t (ground arith), h (ground arith), r (ground arith), s (ground arith)),
      λ (a, b, c, d).
          let a' = t' a in let b' = h' b in let c' = r' c in let d' = s' d in ground arith,
    )

-- Where a job of the project and key of a valid request is stored, submitting the request changes no
-- table: it returns that job if job type, input hash, run and stage are the same, and throws the error
-- 409 IDEMPOTENCY_KEY_REUSED if one of them differs.
pub submit_job-taken :
    (hash : Text → Text) (s : SubmitInput) (db : Db) (new j : JobRow)
    → is_project s.project_id db ≡ true
    → new_job_row hash s db ≡ ok new
    → find (has_key new.project_id new.idempotency_key) db.jobs ≡ some j
    → (IsAlike new j × (with_transaction (submit_job hash s) db ≡ (ok (j, false), db)))
      ⊎ ((¬ IsAlike new j)
          × (with_transaction (submit_job hash s) db
              ≡ (throw (conflict idempotency_key_reused), db)))
unfolding with_transaction submit_job_in_transaction ◌>>=◌ lift gets return_existing guard pure
submit_job-taken hash s db new j there e found =
    let key = has_key new.project_id new.idempotency_key in
    let taken = any-find key (conflicts new) (λ k h. has_key-conflicts new k h) db.jobs found in
    let known = submit_job-known hash s db there in
    let (same, back) = same_request_iff new j in
    elim (Bool-cases (same_request new j)) [
      | inl alike ↦ inl (same alike, rw (known, e, taken, found, alike) refl)
      | inr other ↦
          inr (λ h. let alike = back h in absurd (cc), rw (known, e, taken, found, other) refl)
    ]
