-- ===== src/Execution/Order.antt =====
-- What an accepted catalog promises: the dependencies of its stages have no cycle.
use ai_research_workbench.Common.Number.{
  whole, not_a_number, number_lt, number_ge, number_same, number_lt_trans, number_lt_irrefl,
  number_ge-lt,
}
use ai_research_workbench.Common.{
  ℕ, Option-cases, inl, inr, ◌≡◌, ◌≢◌, refl, sym, subst, true, some, List, [], ◌∷◌, arith, all,
  includes, has_duplicates, All, All-find, all-includes,
}
use ai_research_workbench.Common.Outcome.{ok, >>=-ok}
use ai_research_workbench.Execution.{
  AiStage, AiStage_eq, ai_stage_eq, StageDefinition, find_definition, dependency_valid,
  validate_stage, validate_stages, pipeline_stage_catalog, validate_pipeline_stage_catalog,
}

-- The catalog that the module validates when it is loaded passes.
pub catalog_ok : validate_pipeline_stage_catalog pipeline_stage_catalog ≡ ok tt
unfolding validate_pipeline_stage_catalog pipeline_stage_catalog validate_stages has_duplicates
    ai_stage_eq number_same number_lt number_ge dependency_valid
catalog_ok = refl

abbrev Accepted : List StageDefinition → StageDefinition → Type 0
Accepted catalog d = all (dependency_valid catalog d.ordinal) d.dependencies ≡ true

validate_stage-Accepted :
    (catalog : List StageDefinition) (d : StageDefinition)
    → validate_stage catalog d ≡ ok tt
    → Accepted catalog d
unfolding validate_stage
validate_stage-Accepted catalog d h = ground arith

validate_stages-Accepted :
    (catalog ds : List StageDefinition)
    → validate_stages catalog ds ≡ ok tt
    → All (Accepted catalog) ds
unfolding validate_stages
validate_stages-Accepted catalog [] h = tt
validate_stages-Accepted catalog (d ∷ ds) h =
    let (u, first, rest) = >>=-ok (validate_stage catalog d) _ h in
    (validate_stage-Accepted catalog d first, validate_stages-Accepted catalog ds rest)

-- `t` is a dependency of `s`, or a dependency of a dependency, and so on, by the catalog's entries.
pub data Requires (catalog : List StageDefinition) : AiStage → AiStage → Type 0 where
  direct :
      {s t : AiStage} {d : StageDefinition}
      → find_definition catalog s ≡ some d
      → includes d.dependencies t ≡ true
      → Requires catalog s t
  through : {s t u : AiStage} → Requires catalog s t → Requires catalog t u → Requires catalog s u

-- No stage has NaN for its ordinal.
abbrev pub IsNumbered : StageDefinition → Type 0
IsNumbered d = d.ordinal ≢ not_a_number

real : (n : ℕ) → whole n ≢ not_a_number
real n = λ e. cc

pub catalog-IsNumbered : All IsNumbered pipeline_stage_catalog
unfolding pipeline_stage_catalog
catalog-IsNumbered = (
  real 1,
  (
    real 2,
    (real 3, (real 4, (real 5, (real 6, (real 7, (real 8, (real 9, (real 10, (real 11, tt))))))))),
  ),
)

module _ (catalog : List StageDefinition) (accepted : All (Accepted catalog) catalog)
    (numbered : All IsNumbered catalog) where
  found :
      (d : StageDefinition) (t : AiStage) (s : AiStage)
      → find_definition catalog s ≡ some d
      → includes d.dependencies t ≡ true
      → (e : StageDefinition) × (find_definition catalog t ≡ some e)
        × (number_lt e.ordinal d.ordinal ≡ true)
  unfolding find_definition dependency_valid
  found d t s at_s m =
      let here = (All-find (Accepted catalog) (λ x. ai_stage_eq x.id s) catalog accepted at_s).0 in
      let real = (All-find IsNumbered (λ x. ai_stage_eq x.id s) catalog numbered at_s).0 in
      let valid = all-includes (dependency_valid catalog d.ordinal) d.dependencies here m in
      elim (Option-cases (find_definition catalog t)) [
        | inl missing ↦ absurd (ground arith)
        | inr (e, at_t) ↦
            let real' = (All-find IsNumbered (λ x. ai_stage_eq x.id t) catalog numbered at_t).0 in
            (e, at_t, number_ge-lt e.ordinal d.ordinal real' real (ground arith))
      ]

  Requires-found :
      {s t : AiStage}
      → Requires catalog s t
      → (d : StageDefinition) × (e : StageDefinition) × (find_definition catalog s ≡ some d)
        × (find_definition catalog t ≡ some e)
        × (number_lt e.ordinal d.ordinal ≡ true)
  Requires-found (direct {s} {t} {d} at_s m) =
      let (e, at_t, lt) = found d t s at_s m in (d, e, at_s, at_t, lt)
  Requires-found (through p q) =
      let (d, e, a, b, lt) = Requires-found p in
      let (d', e', a', b', lt') = Requires-found q in
      let same : d' ≡ e = ground arith in
      let below = subst (λ (x : StageDefinition). number_lt e'.ordinal x.ordinal ≡ true) same lt' in
      (d, e', a, b', number_lt_trans e'.ordinal e.ordinal d.ordinal below lt)

ordinals_differ :
    (catalog : List StageDefinition) (d e : StageDefinition) (s : AiStage)
    → number_lt e.ordinal d.ordinal ≡ true
    → find_definition catalog s ≡ some d
    → find_definition catalog s ≡ some e
    → ⊥
ordinals_differ catalog d e s lt at_s at_t =
    let same : d ≡ e = ground arith in
    let self = subst (λ (x : StageDefinition). number_lt e.ordinal x.ordinal ≡ true) same lt in
    let never = number_lt_irrefl e.ordinal in absurd (cc)

-- In a catalog that the validation accepts and in which no ordinal is NaN, no stage requires itself,
-- directly or through others: each stage that is required stands in the catalog, at a strictly
-- smaller ordinal.
pub validated-acyclic :
    (catalog : List StageDefinition)
    → validate_pipeline_stage_catalog catalog ≡ ok tt
    → All IsNumbered catalog
    → {s t : AiStage} → Requires catalog s t
    → (d : StageDefinition) × (e : StageDefinition) × (find_definition catalog s ≡ some d)
      × (find_definition catalog t ≡ some e)
      × (number_lt e.ordinal d.ordinal ≡ true)
      × (s ≢ t)
unfolding validate_pipeline_stage_catalog
validated-acyclic catalog h numbered {s} {t} r =
    let accepted = validate_stages-Accepted catalog catalog (ground arith) in
    let (d, e, at_s, at_t, lt) = Requires-found catalog accepted numbered r in
    (
      d,
      e,
      at_s,
      at_t,
      lt,
      λ same.
          ordinals_differ catalog d e s lt at_s
            (subst (λ u. find_definition catalog u ≡ some e) (sym same) at_t),
    )
