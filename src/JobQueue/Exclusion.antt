-- ===== src/JobQueue/Exclusion.antt =====
-- `claimJobs`: no job is leased by two claims.
use ai_research_workbench.Common.{
  ℕ, ◌≡◌, ◌≢◌, ◌⊎◌, inl, inr, refl, sym, ap, subst, ◌∙◌, Bool, true, false, not, ◌&&◌, Option, List,
  [], ◌∷◌, map, filter, arith, All, All-filter, All-take, All-weaken, Bool-cases, if◌then◌else◌,
  Text, text_eq, text_eq_iff,
}
use ai_research_workbench.Common.Outcome.{ok}
use ai_research_workbench.Domain.Jobs.{JobStatus_eq, status_eq, claimed}
use ai_research_workbench.Store.{
  Tx, pure, ◌>>=◌, write_job, replace_job, write_event, insert_attempt,
}
use ai_research_workbench.Store.Tables.{Db, JobRow, JobEvent, JobAttempt}
use ai_research_workbench.JobQueue.Claim.{
  is_candidate, candidates, write_claimed, record_claims, nothing_selected, claim_candidates,
  ClaimInput, claim_jobs,
}
use ai_research_workbench.JobQueue.Rows.{claimed_row}
use ai_research_workbench.JobQueue.Returns.{bind-returns, lift-returns, gets-returns, pure-returns}
use ai_research_workbench.JobQueue.Invariant.Claims.{order_jobs-All}

-- Every row of the identifier is claimed.
abbrev Claimed : Text → List JobRow → Type 0
Claimed id jobs = All (λ (j : JobRow). j.id ≡ id → j.status ≡ claimed) jobs

replace_job-keeps :
    (id : Text) (k : JobRow) (jobs : List JobRow)
    → k.status ≡ claimed
    → Claimed id jobs
    → Claimed id (replace_job k jobs)
unfolding replace_job
replace_job-keeps id k [] c h = tt
replace_job-keeps id k (j ∷ jobs) c (h, rest) = elim (Bool-cases (text_eq j.id k.id)) [
  | inl e ↦ rw e (λ _. c, replace_job-keeps id k jobs c rest)
  | inr e ↦ rw e (h, replace_job-keeps id k jobs c rest)
]

replace_job-Claimed :
    (k : JobRow) (jobs : List JobRow) → k.status ≡ claimed → Claimed k.id (replace_job k jobs)
unfolding replace_job
replace_job-Claimed k [] c = tt
replace_job-Claimed k (j ∷ jobs) c = elim (Bool-cases (text_eq j.id k.id)) [
  | inl e ↦ rw e (λ _. c, replace_job-Claimed k jobs c)
  | inr e ↦ rw e (
    λ same. absurd (let yes = (text_eq_iff j.id k.id).1 same in cc),
    replace_job-Claimed k jobs c,
  )
]

abbrev IsClaimed : JobRow → Type 0
IsClaimed j = j.status ≡ claimed

write_job-returns :
    {B : Type 0} (k : JobRow) (f : Unit {0} → Tx B) (db : Db) {r : B × Db}
    → (write_job k >>= f) db ≡ ok r
    → f tt (record db { jobs = replace_job k db.jobs }) ≡ ok r
unfolding ◌>>=◌ write_job
write_job-returns k f db h = h

write_claimed-keeps :
    (id : Text) (ks : List JobRow) (db : Db) {r : Unit {0} × Db}
    → All IsClaimed ks
    → Claimed id db.jobs
    → write_claimed ks db ≡ ok r
    → Claimed id r.1.jobs
unfolding write_claimed
write_claimed-keeps id [] db {r} c h e =
    subst (λ (q : Unit {0} × Db). Claimed id q.1.jobs) (pure-returns tt db e) h
write_claimed-keeps id (k ∷ ks) db (c, cs) h e =
    write_claimed-keeps id ks _ cs (replace_job-keeps id k db.jobs c h) (write_job-returns k _ db e)

write_claimed-Claimed :
    (ks : List JobRow) (db : Db) {r : Unit {0} × Db}
    → All IsClaimed ks
    → write_claimed ks db ≡ ok r
    → All (λ (k : JobRow). Claimed k.id r.1.jobs) ks
unfolding write_claimed
write_claimed-Claimed [] db c e = tt
write_claimed-Claimed (k ∷ ks) db (c, cs) e =
    let rest = write_job-returns k _ db e in
    (
      write_claimed-keeps k.id ks _ cs (replace_job-Claimed k db.jobs c) rest,
      write_claimed-Claimed ks _ cs rest,
    )

insert_attempt-jobs :
    (a : JobAttempt) (db : Db) {r : Unit {0} × Db} → insert_attempt a db ≡ ok r → r.1.jobs ≡ db.jobs
unfolding insert_attempt
insert_attempt-jobs a db h = ground arith

write_event-jobs :
    (e : JobEvent) (db : Db) {r : Unit {0} × Db} → write_event e db ≡ ok r → r.1.jobs ≡ db.jobs
unfolding write_event
write_event-jobs e db h = ground arith

record_claims-jobs :
    (worker : Text) (js : List JobRow) (db : Db) {r : Unit {0} × Db}
    → record_claims worker js db ≡ ok r
    → r.1.jobs ≡ db.jobs
unfolding record_claims
record_claims-jobs worker [] db h =
    ap (λ (q : Unit {0} × Db). q.1.jobs) (sym (pure-returns tt db h))
record_claims-jobs worker (j ∷ js) db h =
    let (_, _, h) = lift-returns _ db _ h in
    let (p, e, h) = bind-returns _ db _ h in
    let (q, e', h) = bind-returns _ p.1 _ h in
    record_claims-jobs worker js q.1 h ∙ write_event-jobs _ p.1 e' ∙ insert_attempt-jobs _ db e

if-returns :
    {A : Type 0} (b : Bool) (m n : Tx A) (db : Db) {r : A × Db}
    → (if b then m else n) db ≡ ok r
    → (m db ≡ ok r) ⊎ (n db ≡ ok r)
if-returns true m n db h = inl h
if-returns false m n db h = inr h

-- Every row of `claimJobs` was claimed from the tables at hand.
module _ (id_le : Text → Text → Bool) (locked : JobRow → Bool) (input : ClaimInput) (db : Db) where
  claim_jobs-returns :
      {r : List JobRow × Db}
      → claim_jobs id_le locked input db ≡ ok r
      → (r.0 ≡ [])
        ⊎ ((worker : Text) × (ms : ℕ) × (limit : ℕ) × (types : Option (List Text))
            × (run_ids : Option (List Text)) × (claim_candidates worker ms
                  (candidates id_le limit db.now types run_ids locked db.jobs)
                  db
                ≡ ok r))
  unfolding claim_jobs
  claim_jobs-returns {r} h =
      let (worker, _, h) = lift-returns _ db _ h in
      let (limit, _, h) = lift-returns _ db _ h in
      let (ms, _, h) = lift-returns _ db _ h in
      let (types, _, h) = lift-returns _ db _ h in
      let (run_ids, _, h) = lift-returns _ db _ h in
      let h = gets-returns _ db _ h in
      elim (if-returns (nothing_selected types run_ids) (pure []) _ db h) [
        | inl e ↦ inl (ap (λ (q : List JobRow × Db). q.0) (sym (pure-returns [] db e)))
        | inr e ↦ inr (worker, ms, limit, types, run_ids, e)
      ]

claim_candidates-returns :
    (worker : Text) (ms : ℕ) (chosen : List JobRow) (db : Db) {r : List JobRow × Db}
    → claim_candidates worker ms chosen db ≡ ok r
    → (r.0 ≡ map (claimed_row db.now worker ms) chosen)
      × (p : Unit {0} × Db) × (write_claimed (map (claimed_row db.now worker ms) chosen) db ≡ ok p)
      × (r.1.jobs ≡ p.1.jobs)
unfolding claim_candidates
claim_candidates-returns worker ms chosen db {r} h =
    let h = gets-returns _ db _ h in
    let (p, e, h) = bind-returns _ db _ h in
    let (q, e', h) = bind-returns _ p.1 _ h in
    let last = pure-returns _ q.1 h in
    (
      ap (λ (q : List JobRow × Db). q.0) (sym last),
      p,
      e,
      ap (λ (q : List JobRow × Db). q.1.jobs) (sym last) ∙ record_claims-jobs worker chosen p.1 e',
    )

leased-IsClaimed :
    (now ms : ℕ) (worker : Text) (js : List JobRow)
    → All IsClaimed (map (claimed_row now worker ms) js)
unfolding claimed_row
leased-IsClaimed now ms worker [] = tt
leased-IsClaimed now ms worker (j ∷ js) = (refl, leased-IsClaimed now ms worker js)

-- After a claim, every row with the identifier of a claimed job is claimed.
claim_jobs-Claimed :
    (id_le : Text → Text → Bool) (locked : JobRow → Bool) (input : ClaimInput) (db : Db)
    {r : List JobRow × Db}
    → claim_jobs id_le locked input db ≡ ok r
    → All (λ (k : JobRow). Claimed k.id r.1.jobs) r.0
claim_jobs-Claimed id_le locked input db {r} h = elim (claim_jobs-returns id_le locked input db h) [
  | inl e ↦ subst (All (λ (k : JobRow). Claimed k.id r.1.jobs)) (sym e) tt
  | inr (worker, ms, limit, types, run_ids, e) ↦
      let chosen = candidates id_le limit db.now types run_ids locked db.jobs in
      let leased = map (claimed_row db.now worker ms) chosen in
      let (rows, p, written, same) = claim_candidates-returns worker ms chosen db e in
      subst (λ l. All (λ (k : JobRow). Claimed k.id r.1.jobs) l) (sym rows)
        (subst (λ js. All (λ (k : JobRow). Claimed k.id js) leased) (sym same)
          (write_claimed-Claimed leased db (leased-IsClaimed db.now ms worker chosen) written))
]

candidate-other :
    (id : Text) (now : ℕ) (types run_ids : Option (List Text)) (free : Bool) (j : JobRow)
    → (j.id ≡ id → j.status ≡ claimed)
    → (is_candidate now types run_ids j && free) ≡ true
    → j.id ≢ id
unfolding is_candidate status_eq
candidate-other id now types run_ids free j c h same = let k = c same in ground arith

module _ (id_le : Text → Text → Bool) (locked : JobRow → Bool) (id : Text) where
  abbrev Other : JobRow → Type 0
  Other j = j.id ≢ id

  candidates-Other :
      (limit now : ℕ) (types run_ids : Option (List Text)) (js : List JobRow)
      → Claimed id js
      → All Other (candidates id_le limit now types run_ids locked js)
  unfolding candidates
  candidates-Other limit now types run_ids js c =
      let test = λ (j : JobRow). is_candidate now types run_ids j && not (locked j) in
      let others =
        All-weaken _ (λ j q. candidate-other id now types run_ids (not (locked j)) j q.0 q.1)
          (filter test js)
          (All-filter (λ (j : JobRow). j.id ≡ id → j.status ≡ claimed) test js c) in
      All-take Other limit _ (order_jobs-All id_le Other (filter test js) others)

  leased-Other :
      (now ms : ℕ) (worker : Text) (js : List JobRow)
      → All Other js
      → All Other (map (claimed_row now worker ms) js)
  unfolding claimed_row
  leased-Other now ms worker [] h = tt
  leased-Other now ms worker (j ∷ js) (h, k) = (h, leased-Other now ms worker js k)

  -- A claim does not return a job whose rows are claimed.
  claim_jobs-Other :
      (input : ClaimInput) (db : Db) {r : List JobRow × Db}
      → Claimed id db.jobs
      → claim_jobs id_le locked input db ≡ ok r
      → All Other r.0
  claim_jobs-Other input db {r} c h = elim (claim_jobs-returns id_le locked input db h) [
    | inl e ↦ subst (All Other) (sym e) tt
    | inr (worker, ms, limit, types, run_ids, e) ↦
        let (rows, _, _, _) = claim_candidates-returns worker ms _ db e in
        subst (All Other) (sym rows)
          (leased-Other db.now ms worker _ (candidates-Other limit db.now types run_ids db.jobs c))
  ]

-- Two claims that return, one after the other and at any times, whatever their inputs, share no
-- job, as long as nothing else is done between them.
pub claim_jobs-exclusive :
    (id_le : Text → Text → Bool) (locked locked' : JobRow → Bool) (input input' : ClaimInput)
    (now : ℕ) (db db' db'' : Db) (first second : List JobRow)
    → claim_jobs id_le locked input db ≡ ok (first, db')
    → claim_jobs id_le locked' input' (record db' { now = now }) ≡ ok (second, db'')
    → All (λ (k : JobRow). All (λ (j : JobRow). j.id ≢ k.id) second) first
claim_jobs-exclusive id_le locked locked' input input' now db db' db'' first second h h' =
    All-weaken (λ (k : JobRow). Claimed k.id db'.jobs)
      (λ k c. claim_jobs-Other id_le locked' k.id input' (record db' { now = now }) c h') first
      (claim_jobs-Claimed id_le locked input db h)
