-- ===== src/JobQueue/Invariant/Claims.antt =====
-- `claimJobs` keeps the tables good, and leases only jobs that were ready.
use ai_research_workbench.Common.{
  ℕ, ◌<◌, ◌≡◌, ◌⊎◌, inl, inr, Bool, true, not, ◌&&◌, Option, List, [], ◌∷◌, map, filter, arith, All,
  All-filter, All-take, All-weaken, Bool-cases, Text,
}
use ai_research_workbench.Domain.Jobs.{status_eq, queued, retry_wait, claimed}
use ai_research_workbench.Store.{pure}
use ai_research_workbench.Store.Tables.{JobRow}
use ai_research_workbench.JobQueue.Claim.{
  is_candidate, goes_before, insert_ordered, order_jobs, candidates, write_claimed, record_claims,
  nothing_selected, claim_candidates, ClaimInput, claim_jobs,
}
use ai_research_workbench.JobQueue.Rows.{claimed_row}
use ai_research_workbench.JobQueue.Invariant.{
  IsValid, Spec, True, Spec-bind, Spec-pure, Spec-lift, Spec-gets, Spec-if, Spec-write_job,
  Spec-write_event, Spec-insert_attempt,
}
use ai_research_workbench.JobQueue.Invariant.Locks.{Spec-read}
use ai_research_workbench.JobQueue.Invariant.Leases.{asserted}
use ai_research_workbench.JobQueue.Invariant.Rows.{claimed_row-IsValid}

-- A valid job that waits, with attempts left.
pub record Ready (j : JobRow) : Type 0 where
  pub valid : IsValid j
  pub waiting : (j.status ≡ queued) ⊎ (j.status ≡ retry_wait)
  pub attempts_left : j.attempts < j.max_attempts

candidate-Ready :
    (now : ℕ) (types run_ids : Option (List Text)) (j : JobRow) (free : Bool)
    → IsValid j
    → (is_candidate now types run_ids j && free) ≡ true
    → Ready j
unfolding is_candidate status_eq
candidate-Ready now types run_ids j free v h = record {
  valid = v;
  waiting = ground arith;
  attempts_left = ground arith;
}

module _ (id_le : Text → Text → Bool) (P : JobRow → Type 0) where
  insert_ordered-All :
      (j : JobRow) (js : List JobRow) → P j → All P js → All P (insert_ordered id_le j js)
  unfolding insert_ordered
  insert_ordered-All j [] p h = (p, tt)
  insert_ordered-All j (k ∷ ks) p h = elim (Bool-cases (goes_before id_le j k)) [
    | inl e ↦ rw e (p, h)
    | inr e ↦ rw e (h.0, insert_ordered-All j ks p h.1)
  ]

  pub order_jobs-All : (js : List JobRow) → All P js → All P (order_jobs id_le js)
  unfolding order_jobs
  order_jobs-All [] h = tt
  order_jobs-All (j ∷ js) h = insert_ordered-All j (order_jobs id_le js) h.0 (order_jobs-All js h.1)

-- Every candidate that is chosen from valid rows is ready.
pub candidates-Ready :
    (id_le : Text → Text → Bool) (limit now : ℕ) (types run_ids : Option (List Text))
    (locked : JobRow → Bool) (js : List JobRow)
    → All IsValid js
    → All Ready (candidates id_le limit now types run_ids locked js)
unfolding candidates
candidates-Ready id_le limit now types run_ids locked js v =
    let test = λ (j : JobRow). is_candidate now types run_ids j && not (locked j) in
    All-take Ready limit _ (
      order_jobs-All id_le Ready (filter test js) (
        All-weaken _ (λ j q. candidate-Ready now types run_ids j (not (locked j)) q.0 q.1)
          (filter test js) (All-filter IsValid test js v)))

Spec-write_claimed : (js : List JobRow) → All IsValid js → Spec (write_claimed js) True
unfolding write_claimed
Spec-write_claimed [] h = Spec-pure True tt tt
Spec-write_claimed (j ∷ js) h = Spec-bind (Spec-write_job j h.0) λ _ _. Spec-write_claimed js h.1

Spec-record_claims : (worker : Text) (js : List JobRow) → Spec (record_claims worker js) True
unfolding record_claims
Spec-record_claims worker [] = Spec-pure True tt tt
Spec-record_claims worker (j ∷ js) = Spec-bind (Spec-lift _) λ u allowed.
    Spec-bind (Spec-insert_attempt _) λ _ _.
      Spec-bind (Spec-write_event _ (asserted j.status claimed u allowed))
        λ _ _. Spec-record_claims worker js

leased-IsValid :
    (now ms : ℕ) (worker : Text) (js : List JobRow)
    → All Ready js
    → All IsValid (map (claimed_row now worker ms) js)
leased-IsValid now ms worker [] h = tt
leased-IsValid now ms worker (j ∷ js) h = (
  claimed_row-IsValid now j h.0.valid worker ms h.0.waiting h.0.attempts_left,
  leased-IsValid now ms worker js h.1,
)

Spec-claim_candidates :
    (worker : Text) (ms : ℕ) (chosen : List JobRow)
    → All Ready chosen
    → Spec (claim_candidates worker ms chosen) (All IsValid)
unfolding claim_candidates
Spec-claim_candidates worker ms chosen ready = Spec-bind (Spec-read _) λ now _.
    let valid = leased-IsValid now ms worker chosen ready in
    Spec-bind (Spec-write_claimed _ valid)
      λ _ _. Spec-bind (Spec-record_claims worker chosen) λ _ _. Spec-pure (All IsValid) _ valid

pub Spec-claim_jobs :
    (id_le : Text → Text → Bool) (locked : JobRow → Bool) (input : ClaimInput)
    → Spec (claim_jobs id_le locked input) (All IsValid)
unfolding claim_jobs
Spec-claim_jobs id_le locked input = Spec-bind (Spec-lift _) λ worker _.
    Spec-bind (Spec-lift _) λ limit _. Spec-bind (Spec-lift _) λ ms _.
      Spec-bind (Spec-lift _) λ types _. Spec-bind (Spec-lift _) λ run_ids _.
        Spec-bind
          (Spec-gets (All Ready) _
            (λ db g. candidates-Ready id_le limit db.now types run_ids locked db.jobs g.jobs))
          λ chosen ready.
            Spec-if (nothing_selected types run_ids) (pure []) (claim_candidates worker ms chosen)
              (λ _. Spec-pure (All IsValid) [] tt)
              (λ _. Spec-claim_candidates worker ms chosen ready)
