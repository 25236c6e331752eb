-- ===== src/Domain/Qa/Approval.antt =====
-- What the approval of a report by `isQaApprovalAllowed` says of it.
use ai_research_workbench.Common.{
  ◌≡◌, ◌↔◌, refl, sym, ap, ◌∙◌, Bool, true, false, not, ◌&&◌, ◌||◌, some, List, [], ◌∷◌, ◌++◌, map,
  flat_map, filter, any, length, ltb, arith, Text, any-append, All, Bool-cases, ◌⊎◌, ◌≢◌, inl, inr,
}
use ai_research_workbench.Common.Outcome.{ok, throw, error, qa_approval_blocked, >>=-ok}
use ai_research_workbench.Domain.Research.Support.{is_open}
use ai_research_workbench.Domain.Research.Citations.{
  Accepted, find_citation_id_issues, strings, no_issues_sound, no_issues_complete,
}
use ai_research_workbench.Domain.Qa.Context.{QaSource, QaContext}
use ai_research_workbench.Domain.Qa.Findings.{
  QaFinding, blocker, resolved, is_blocker, is_blocking_qa_finding, is_qa_approval_allowed,
  assert_qa_approval_allowed,
}
use ai_research_workbench.Domain.Qa.Sources.{outdated_findings}
use ai_research_workbench.Domain.Qa.Rules
use ai_research_workbench.Domain.Qa.Sources.Quiet.{
  duplicate_findings_quiet, concentration_findings_quiet, unreferenced_findings_quiet,
  outdated_findings_quiet,
}
use ai_research_workbench.Domain.Qa.Blocking.{
  blocks, conflict_findings-blocks, gap_findings-blocks, section_findings-blocks,
  statement_findings-blocks, needs_number, assertions-blocks, citation_findings-blocks,
  contested_findings-blocks, is_unsourced, claim_results-blocks,
}

-- What approval asks of a report.
pub record IsClean (context : QaContext) (results : List Rules.ClaimResult) : Type 0 where
  pub sourced : any (is_unsourced context) context.claims ≡ false
  pub cited :
      (ids : List Text) × (context.report.citation_ids ≡ map some ids)
      × Accepted (map (λ s. s.id) context.sources) [] ids
  pub settled : any (λ c. not c.resolved) context.conflicts ≡ false
  pub explained :
      any
        (λ c.
          Rules.contested_by_id results c.id
          && not (Rules.has_recorded_conflict context.conflicts c.id))
        context.claims
      ≡ false
  pub numbers : any (needs_number context) context.report.quantitative_assertions ≡ false
  pub closed : any (λ g. is_open g.gap_status) context.research_gaps ≡ false
  pub complete : any Rules.is_empty_section context.report.sections ≡ false

remaining_findings-blocks :
    (context : QaContext) (results : List Rules.ClaimResult)
    → blocks (Rules.remaining_findings context results) ≡ (
        any (λ c. not c.resolved) context.conflicts
        || (any
              (λ c.
                Rules.contested_by_id results c.id
                && not (Rules.has_recorded_conflict context.conflicts c.id))
              context.claims
            || (any (needs_number context) context.report.quantitative_assertions
                || (any (λ g. is_open g.gap_status) context.research_gaps
                    || any Rules.is_empty_section context.report.sections))))
unfolding Rules.remaining_findings
remaining_findings-blocks context results =
    let b = is_blocking_qa_finding in
    simp
      (
        any-append, duplicate_findings_quiet, concentration_findings_quiet,
        conflict_findings-blocks, contested_findings-blocks, statement_findings-blocks,
        unreferenced_findings_quiet, gap_findings-blocks, section_findings-blocks,
        assertions-blocks,
      )
      refl

abbrev pub IsCited : QaContext → Type 0
IsCited context =
    (ids : List Text) × (context.report.citation_ids ≡ map some ids)
    × Accepted (map (λ s. s.id) context.sources) [] ids

no_citation_issues :
    (context : QaContext)
    → (ltb 0 (
          length
            (find_citation_id_issues context.report.citation_ids (map (λ s. s.id) context.sources)))
        ≡ false)
      ↔ IsCited context
unfolding find_citation_id_issues
no_citation_issues context =
    let known = map (λ (s : QaSource). s.id) context.sources in
    (
      λ h.
          let (same, accepted) =
            no_issues_sound known [] 0 context.report.citation_ids (ground arith) in
          (strings context.report.citation_ids, sym same, accepted),
      λ (ids, same, accepted). rw (same, no_issues_complete known [] 0 ids accepted) refl,
    )

-- What the rules report blocks exactly if one of these tests succeeds.
run_qa_rules-blocks :
    (context : QaContext) {findings : List QaFinding}
    → Rules.run_qa_rules context ≡ ok findings
    → (results : List Rules.ClaimResult) × (Rules.claim_results context context.claims ≡ ok results)
      × (blocks findings ≡ (
          any (is_unsourced context) context.claims
          || (ltb 0 (
                length (
                  find_citation_id_issues context.report.citation_ids
                    (map (λ s. s.id) context.sources)))
              || blocks (Rules.remaining_findings context results))))
unfolding Rules.run_qa_rules
run_qa_rules-blocks context {findings} h =
    let (results, e1, h) = >>=-ok (Rules.claim_results context context.claims) _ h in
    let (old, e2, h) = >>=-ok (outdated_findings context) _ h in
    let quiet = outdated_findings_quiet context e2 in
    let own = claim_results-blocks context context.claims e1 in
    let first = flat_map (λ (r : Rules.ClaimResult). r.findings) results in
    let rest = Rules.remaining_findings context results in
    let total : first ++ (Rules.citation_findings context ++ (old ++ rest)) ≡ findings =
      ground arith in
    let split =
      any-append is_blocking_qa_finding first (Rules.citation_findings context ++ (old ++ rest)) in
    let split' =
      any-append is_blocking_qa_finding (Rules.citation_findings context) (old ++ rest) in
    let split'' = any-append is_blocking_qa_finding old rest in
    (results, e1, ap blocks (sym total) ∙ ground (arith, citation_findings-blocks context))

-- Where the rules run, the report can be approved exactly if no key claim of the report lacks a
-- link to verified support from a known source, the citations are well-formed, known and
-- distinct, every conflict is resolved, every claim that is contested has a recorded conflict,
-- every number has verified evidence and no value that differs from its source's, no research gap
-- is open, and no required section is blank.
pub is_qa_approval_allowed_iff :
    (context : QaContext) {findings : List QaFinding}
    → Rules.run_qa_rules context ≡ ok findings
    → (results : List Rules.ClaimResult) × (Rules.claim_results context context.claims ≡ ok results)
      × ((is_qa_approval_allowed findings ≡ true) ↔ IsClean context results)
unfolding is_qa_approval_allowed
is_qa_approval_allowed_iff context h =
    let (results, e, total) = run_qa_rules-blocks context h in
    let rest = remaining_findings-blocks context results in
    let cited = no_citation_issues context in
    (
      results,
      e,
      (
        λ allowed. record {
          sourced = ground arith;
          cited = cited.0 (ground arith);
          settled = ground arith;
          explained = ground arith;
          numbers = ground arith;
          closed = ground arith;
          complete = ground arith;
        },
        λ clean. let c = cited.1 clean.cited in ground arith,
      ),
    )

length-filter-any {ℓ} :
    {A : Type ℓ} (p : A → Bool) (xs : List A) → ltb 0 (length (filter p xs)) ≡ any p xs
length-filter-any p [] = refl
length-filter-any p (x ∷ xs) = ground (arith, length-filter-any p xs)

-- A finding that does not stand in the way of an approval.
abbrev pub IsSettled : QaFinding → Type 0
IsSettled f = (f.severity ≢ blocker) ⊎ (f.resolution_status ≡ resolved)

not_blocking : (f : QaFinding) → is_blocking_qa_finding f ≡ false → IsSettled f
unfolding is_blocking_qa_finding
not_blocking f h = elim (Bool-cases (is_blocker f.severity)) [
  | inl e ↦ inr (ground arith)
  | inr e ↦ inl (λ same. absurd (ground arith))
]

settled : (f : QaFinding) → IsSettled f → is_blocking_qa_finding f ≡ false
unfolding is_blocking_qa_finding
settled f (inl h) = elim (Bool-cases (is_blocker f.severity)) [
  | inl e ↦ absurd (h (ground arith))
  | inr e ↦ ground arith
]
settled f (inr h) = ground arith

All-IsSettled :
    (findings : List QaFinding)
    → (any is_blocking_qa_finding findings ≡ false) ↔ All IsSettled findings
All-IsSettled [] = (λ h. tt, λ h. refl)
All-IsSettled (f ∷ fs) =
    let (there, back) = All-IsSettled fs in
    (
      λ h. (not_blocking f (ground arith), there (ground arith)),
      λ (h, k). let first = settled f h in let rest = back k in ground arith,
    )

-- Where every finding is resolved or not a blocker, `assertQaApprovalAllowed` returns; where one is
-- an unresolved blocker, it throws the error of a blocked approval.
pub assert_qa_approval_allowed_cases :
    (findings : List QaFinding)
    → (All IsSettled findings × (assert_qa_approval_allowed findings ≡ ok tt))
      ⊎ ((¬ All IsSettled findings)
          × (assert_qa_approval_allowed findings ≡ throw (error qa_approval_blocked)))
unfolding assert_qa_approval_allowed
assert_qa_approval_allowed_cases findings =
    let (there, back) = All-IsSettled findings in
    let total = length-filter-any is_blocking_qa_finding findings in
    elim (Bool-cases (any is_blocking_qa_finding findings)) [
      | inl e ↦ inr (λ h. let none = back h in absurd (ground arith), ground arith)
      | inr e ↦ inl (there e, ground arith)
    ]
