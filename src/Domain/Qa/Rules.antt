-- ===== src/Domain/Qa/Rules.antt =====
-- lib/domain/qa.ts: the rules on claims, conflicts and the report, and `runQaRules`.
use ai_research_workbench.Common.{
  Bool, true, false, not, ◌&&◌, ◌||◌, Option, none, some, List, [], ◌∷◌, ◌++◌, map, flat_map,
  last_match, filter, length, any, nat_eq, if◌then◌else◌, Text, text_eq, trim,
}
use ai_research_workbench.Common.Outcome.{Outcome, ok, ◌>>=◌}
use ai_research_workbench.Domain.Research.Support.{
  ClaimEvidence, ClaimSupportStatus, contested, is_verified, is_support, is_open,
  calculate_claim_support_status,
}
use ai_research_workbench.Domain.Research.Citations.{CitationIdIssue, find_citation_id_issues}
use ai_research_workbench.Domain.Qa.Context.{
  QaSource, QaEvidence, QaClaimEvidenceLink, QaClaim, QaClaimImportance, critical, high,
  QaSourceConflict, QaStatementClassification, mixed, QaReportStatement, QaQuantitativeAssertion,
  QaReportSection, QaResearchGap, QaContext,
}
use ai_research_workbench.Domain.Qa.Findings.{
  QaFinding, qa_finding, plain, contested_claim, citation_issue, at_claim, at_citation, at_section,
  given, unsourced_key_claim, invalid_citation_id, unresolved_source_conflict, fact_inference_mix,
  out_of_scope_content, unsupported_number, date_or_unit_mismatch, source_number_mismatch,
  open_research_gap, empty_required_section,
}
use ai_research_workbench.Domain.Qa.Sources.{
  source_by_id, source_freshness, outdated_findings, duplicate_findings, concentration_findings,
  unreferenced_findings,
}

evidence_by_id : List QaEvidence → Text → Option QaEvidence
evidence_by_id evidence id = last_match (λ e. text_eq e.id id) evidence

-- The source of the evidence of a link, where both are known, with the evidence.
unfoldable pub linked : QaContext → QaClaimEvidenceLink → Option (QaEvidence × QaSource)
unfolding evidence_by_id source_by_id
linked context link = elim (evidence_by_id context.evidence link.evidence_id) [
  | none ↦ none
  | some e ↦ elim (source_by_id context.sources e.source_id) [ none ↦ none | some s ↦ some (e, s) ]
]

abbrev pub assess_linked :
    QaContext → QaClaimEvidenceLink → Option (QaEvidence × QaSource) → Outcome (List ClaimEvidence)
assess_linked context link none = ok []
assess_linked context link (some (evidence, source)) =
    source_freshness context source >>= λ freshness. ok (
      record {
        relationship = link.relationship;
        verification_status = evidence.verification_status;
        source_freshness = freshness;
        support_extent = link.support_extent;
      }
      ∷ [])

-- `assessments` of the links of a claim.
unfoldable pub assessments : QaContext → List QaClaimEvidenceLink → Outcome (List ClaimEvidence)
unfolding linked
assessments context [] = ok []
assessments context (link ∷ links) =
    let rest = assessments context links in
    assess_linked context link (linked context link) >>= λ first.
    rest >>= λ others. ok (first ++ others)

unfoldable pub links_of : QaContext → Text → List QaClaimEvidenceLink
links_of context claim_id = filter (λ l. text_eq l.claim_id claim_id) context.claim_evidence

unfoldable pub is_key : QaClaimImportance → Bool
is_key critical = true
is_key high = true
is_key _ = false

unfoldable pub has_verified_support : List ClaimEvidence → Bool
has_verified_support items = any (λ a. is_support a && is_verified a.verification_status) items

unfoldable pub unsourced_finding : QaClaim → List ClaimEvidence → List QaFinding
unfolding is_key has_verified_support
unsourced_finding claim items =
    if claim.include_in_report && is_key claim.importance && not (has_verified_support items)
    then qa_finding unsourced_key_claim (plain claim.id) (at_claim claim.id) ∷ []
    else []

-- A claim with what the rules found of it: its support status and its findings.
pub record ClaimResult : Type 0 where
  pub claim : QaClaim
  pub support : ClaimSupportStatus
  pub findings : List QaFinding

unfoldable pub claim_result : QaClaim → List ClaimEvidence → ClaimResult
unfolding unsourced_finding
claim_result claim items = record {
  claim = claim;
  support = calculate_claim_support_status claim.verification_possible items;
  findings = unsourced_finding claim items;
}

-- The first loop over the claims.
unfoldable pub claim_results : QaContext → List QaClaim → Outcome (List ClaimResult)
unfolding assessments links_of claim_result
claim_results context [] = ok []
claim_results context (claim ∷ claims) =
    let rest = claim_results context claims in
    assessments context (links_of context claim.id) >>= λ items.
    rest >>= λ others. ok (claim_result claim items ∷ others)

unfoldable pub citation_findings : QaContext → List QaFinding
citation_findings context =
    map
      (λ (i : CitationIdIssue).
        qa_finding invalid_citation_id (citation_issue i.index i.code) (at_citation i.index))
      (find_citation_id_issues context.report.citation_ids (map (λ s. s.id) context.sources))

unfoldable pub conflict_findings : List QaSourceConflict → List QaFinding
conflict_findings conflicts =
    map (λ c. qa_finding unresolved_source_conflict (plain c.id) (given c.location))
      (filter (λ c. not c.resolved) conflicts)

is_contested : ClaimSupportStatus → Bool
is_contested contested = true
is_contested _ = false

-- `claimSupportById.get(claim.id) === "CONTESTED"`: the last claim of an identifier counts.
unfoldable pub contested_by_id : List ClaimResult → Text → Bool
unfolding is_contested
contested_by_id results id = elim (last_match (λ r. text_eq r.claim.id id) results) [
  | none ↦ false
  | some r ↦ is_contested r.support
]

names_claim : Option Text → Text → Bool
names_claim none id = false
names_claim (some claim_id) id = text_eq claim_id id && not (nat_eq (length claim_id) 0)

unfoldable pub has_recorded_conflict : List QaSourceConflict → Text → Bool
unfolding names_claim
has_recorded_conflict conflicts id = any (λ c. names_claim c.claim_id id) conflicts

unfoldable pub contested_findings : QaContext → List ClaimResult → List QaFinding
contested_findings context results =
    map (λ c. qa_finding unresolved_source_conflict (contested_claim c.id) (at_claim c.id))
      (filter
        (λ c. contested_by_id results c.id && not (has_recorded_conflict context.conflicts c.id))
        context.claims)

is_mixed : QaStatementClassification → Bool
is_mixed mixed = true
is_mixed _ = false

unfoldable pub statement_findings : QaReportStatement → List QaFinding
unfolding is_mixed
statement_findings s =
    (if is_mixed s.classification
      then qa_finding fact_inference_mix (plain s.id) (given s.location) ∷ []
      else [])
    ++ (if s.within_scope
        then []
        else qa_finding out_of_scope_content (plain s.id) (given s.location) ∷ [])

-- `assertion.evidenceId ? evidenceById.get(assertion.evidenceId) : undefined`, and verified.
unfoldable pub has_verified_evidence : QaContext → Option Text → Bool
unfolding evidence_by_id
has_verified_evidence context none = false
has_verified_evidence context (some id) =
    not (nat_eq (length id) 0) && elim (evidence_by_id context.evidence id) [
      | none ↦ false
      | some e ↦ is_verified e.verification_status
    ]

-- `value === false`
unfoldable pub is_mismatch : Option Bool → Bool
is_mismatch (some false) = true
is_mismatch _ = false

unfoldable pub assertion_findings : QaContext → QaQuantitativeAssertion → List QaFinding
assertion_findings context a =
    (if has_verified_evidence context a.evidence_id
      then []
      else qa_finding unsupported_number (plain a.id) (given a.location) ∷ [])
    ++ ((if is_mismatch a.date_matches_source || is_mismatch a.unit_matches_source
          then qa_finding date_or_unit_mismatch (plain a.id) (given a.location) ∷ []
          else [])
        ++ (if is_mismatch a.value_matches_source
            then qa_finding source_number_mismatch (plain a.id) (given a.location) ∷ []
            else []))

unfoldable pub gap_findings : List QaResearchGap → List QaFinding
gap_findings gaps =
    map (λ g. qa_finding open_research_gap (plain g.id) (given g.location))
      (filter (λ g. is_open g.gap_status) gaps)

unfoldable pub is_empty_section : QaReportSection → Bool
unfolding trim
is_empty_section s = s.required && nat_eq (length (trim s.content)) 0

unfoldable pub section_findings : List QaReportSection → List QaFinding
section_findings sections =
    map (λ s. qa_finding empty_required_section (plain s.id) (at_section s.id))
      (filter is_empty_section sections)

-- The findings of the rules that no date enters, after those of the claims and the cited sources.
unfoldable pub remaining_findings : QaContext → List ClaimResult → List QaFinding
remaining_findings context results =
    duplicate_findings context
    ++ (concentration_findings context
        ++ (conflict_findings context.conflicts
            ++ (contested_findings context results
                ++ (flat_map statement_findings context.report.statements
                    ++ (flat_map (assertion_findings context) context.report.quantitative_assertions
                        ++ (unreferenced_findings context
                            ++ (gap_findings context.research_gaps
                                ++ section_findings context.report.sections)))))))

unfoldable pub run_qa_rules : QaContext → Outcome (List QaFinding)
run_qa_rules context = claim_results context context.claims >>= λ results.
    outdated_findings context >>= λ old. ok (
      flat_map (λ r. r.findings) results
      ++ (citation_findings context ++ (old ++ remaining_findings context results)))
