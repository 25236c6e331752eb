-- ===== src/Domain/Qa/Blocking.antt =====
-- Which rules of `runQaRules` report a finding that blocks, and at what.
use ai_research_workbench.Common.{
  ◌≡◌, refl, ◌∙◌, subst, Bool, true, false, not, ◌&&◌, ◌||◌, Option, none, some, List, [], ◌∷◌,
  ◌++◌, map, flat_map, any, length, ltb, arith, any-append, any-flat_map, any-map-true,
  any-map-filter, any-same,
}
use ai_research_workbench.Common.Outcome.{ok, >>=-ok}
use ai_research_workbench.Domain.Research.Support.{
  EvidenceRelationship, supports, ClaimEvidence, is_verified, is_open,
}
use ai_research_workbench.Domain.Research.Citations.{find_citation_id_issues}
use ai_research_workbench.Domain.Qa.Context.{
  QaSource, QaEvidence, QaClaimEvidenceLink, QaClaim, QaSourceConflict, QaReportStatement,
  QaQuantitativeAssertion, QaReportSection, QaResearchGap, QaContext,
}
use ai_research_workbench.Domain.Qa.Findings.{QaFinding, qa_finding, is_blocking_qa_finding}
use ai_research_workbench.Domain.Qa.Sources.{source_freshness}
use ai_research_workbench.Domain.Qa.Rules

abbrev pub blocks : List QaFinding → Bool
blocks = any is_blocking_qa_finding

pub conflict_findings-blocks :
    (cs : List QaSourceConflict)
    → blocks (Rules.conflict_findings cs) ≡ any (λ c. not c.resolved) cs
unfolding Rules.conflict_findings is_blocking_qa_finding qa_finding
conflict_findings-blocks cs = any-map-filter _ _ _ cs (λ x. refl)

pub gap_findings-blocks :
    (gs : List QaResearchGap) → blocks (Rules.gap_findings gs) ≡ any (λ g. is_open g.gap_status) gs
unfolding Rules.gap_findings is_blocking_qa_finding qa_finding
gap_findings-blocks gs = any-map-filter _ _ _ gs (λ x. refl)

pub section_findings-blocks :
    (ss : List QaReportSection) → blocks (Rules.section_findings ss) ≡ any Rules.is_empty_section ss
unfolding Rules.section_findings is_blocking_qa_finding qa_finding
section_findings-blocks ss = any-map-filter _ _ _ ss (λ x. refl)

pub statement_findings-blocks :
    (ss : List QaReportStatement) → blocks (flat_map Rules.statement_findings ss) ≡ false
unfolding Rules.statement_findings is_blocking_qa_finding qa_finding
statement_findings-blocks [] = refl
statement_findings-blocks (s ∷ ss) = ground (
  arith,
  any-append is_blocking_qa_finding (Rules.statement_findings s)
      (flat_map Rules.statement_findings ss),
  statement_findings-blocks ss,
)

abbrev pub needs_number : QaContext → QaQuantitativeAssertion → Bool
needs_number context a =
    not (Rules.has_verified_evidence context a.evidence_id)
    || Rules.is_mismatch a.value_matches_source

-- An assertion blocks if its number has no verified evidence, or another value than its source.
assertion_findings-blocks :
    (context : QaContext) (a : QaQuantitativeAssertion)
    → blocks (Rules.assertion_findings context a) ≡ needs_number context a
unfolding Rules.assertion_findings is_blocking_qa_finding qa_finding
assertion_findings-blocks context a = ground arith

pub assertions-blocks :
    (context : QaContext) (items : List QaQuantitativeAssertion)
    → blocks (flat_map (Rules.assertion_findings context) items) ≡ any (needs_number context) items
assertions-blocks context items =
    any-flat_map is_blocking_qa_finding (Rules.assertion_findings context) items
    ∙ any-same _ (needs_number context) items (assertion_findings-blocks context)

pub citation_findings-blocks :
    (context : QaContext)
    → blocks (Rules.citation_findings context)
      ≡ ltb 0 (
          length
            (find_citation_id_issues context.report.citation_ids (map (λ s. s.id) context.sources)))
unfolding Rules.citation_findings is_blocking_qa_finding qa_finding
citation_findings-blocks context = any-map-true _ _ _ (λ x. refl)

pub contested_findings-blocks :
    (context : QaContext) (results : List Rules.ClaimResult)
    → blocks (Rules.contested_findings context results)
      ≡ any
          (λ c.
            Rules.contested_by_id results c.id
            && not (Rules.has_recorded_conflict context.conflicts c.id))
          context.claims
unfolding Rules.contested_findings is_blocking_qa_finding qa_finding
contested_findings-blocks context results = any-map-filter _ _ _ context.claims (λ x. refl)

abbrev pub is_supporting : EvidenceRelationship → Bool
is_supporting supports = true
is_supporting _ = false

-- A link of a claim to verified evidence that supports it, from a source that is known.
abbrev pub supported_by : QaClaimEvidenceLink → Option (QaEvidence × QaSource) → Bool
supported_by link none = false
supported_by link (some (evidence, source)) =
    is_supporting link.relationship && is_verified evidence.verification_status

supported_by-assessed :
    (context : QaContext) (link : QaClaimEvidenceLink) (o : Option (QaEvidence × QaSource))
    {items : List ClaimEvidence}
    → Rules.assess_linked context link o ≡ ok items
    → Rules.has_verified_support items ≡ supported_by link o
unfolding Rules.has_verified_support
supported_by-assessed context link none h = ground arith
supported_by-assessed context link (some (evidence, source)) h =
    let (f, _, h) = >>=-ok (source_freshness context source) _ h in ground arith

abbrev pub link_supports : QaContext → QaClaimEvidenceLink → Bool
link_supports context link = supported_by link (Rules.linked context link)

assessments-support :
    (context : QaContext) (links : List QaClaimEvidenceLink) {items : List ClaimEvidence}
    → Rules.assessments context links ≡ ok items
    → Rules.has_verified_support items ≡ any (link_supports context) links
unfolding Rules.assessments Rules.has_verified_support
assessments-support context [] h = ground arith
assessments-support context (link ∷ links) {items} h =
    let (first, e1, h) =
      >>=-ok (Rules.assess_linked context link (Rules.linked context link)) _ h in
    let (others, e2, h) = >>=-ok (Rules.assessments context links) _ h in
    let a = supported_by-assessed context link (Rules.linked context link) e1 in
    let b = assessments-support context links e2 in
    let same : first ++ others ≡ items = ground arith in
    subst (λ l. Rules.has_verified_support l ≡ any (link_supports context) (link ∷ links)) same
      (any-append _ first others ∙ ground arith)

-- A key claim of the report with no link to verified support.
abbrev pub is_unsourced : QaContext → QaClaim → Bool
is_unsourced context claim =
    claim.include_in_report
    && Rules.is_key claim.importance
    && not (any (link_supports context) (Rules.links_of context claim.id))

unsourced_finding-blocks :
    (claim : QaClaim) (items : List ClaimEvidence)
    → blocks (Rules.unsourced_finding claim items) ≡ (
        claim.include_in_report
        && Rules.is_key claim.importance
        && not (Rules.has_verified_support items))
unfolding Rules.unsourced_finding is_blocking_qa_finding qa_finding
unsourced_finding-blocks claim items = ground arith

pub claim_results-blocks :
    (context : QaContext) (claims : List QaClaim) {results : List Rules.ClaimResult}
    → Rules.claim_results context claims ≡ ok results
    → blocks (flat_map (λ (r : Rules.ClaimResult). r.findings) results)
      ≡ any (is_unsourced context) claims
unfolding Rules.claim_results
claim_results-blocks context [] h = ground arith
claim_results-blocks context (claim ∷ claims) {results} h =
    let (items, e1, h) = >>=-ok (Rules.assessments context (Rules.links_of context claim.id)) _ h in
    let (others, e2, h) = >>=-ok (Rules.claim_results context claims) _ h in
    let own = unsourced_finding-blocks claim items in
    let support = assessments-support context (Rules.links_of context claim.id) e1 in
    let rest = claim_results-blocks context claims e2 in
    let same : Rules.claim_result claim items ∷ others ≡ results = ground arith in
    subst
      (λ l.
        blocks (flat_map (λ (r : Rules.ClaimResult). r.findings) l)
        ≡ any (is_unsourced context) (claim ∷ claims))
      same
      (any-append is_blocking_qa_finding (Rules.unsourced_finding claim items)
          (flat_map (λ (r : Rules.ClaimResult). r.findings) others)
        ∙ ground arith)
