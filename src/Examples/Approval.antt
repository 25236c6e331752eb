-- ===== src/Examples/Approval.antt =====
-- A report under the rules of lib/domain/qa.ts.
use ai_research_workbench.Common.{
  ◌≡◌, ◌↔◌, ◌⊎◌, All, refl, true, none, some, [], ◌∷◌, List, text_eq,
}
use ai_research_workbench.Common.Outcome.{ok, throw, error, qa_approval_blocked}
use ai_research_workbench.Common.Number.{whole}
use ai_research_workbench.Domain.Research.Freshness.{date, assess_source_freshness, age_limit}
use ai_research_workbench.Domain.Research.Support
use ai_research_workbench.Domain.Research.Support.{
  calculate_claim_support_status, count_open_research_gaps,
}
use ai_research_workbench.Domain.Qa.Sources.{
  outdated_findings, duplicate_findings, concentration_findings, unreferenced_findings,
}
use ai_research_workbench.Domain.Research.Citations.{find_issues_from, find_citation_id_issues}
use ai_research_workbench.Domain.Qa.Context.{QaContext, critical, fact}
use ai_research_workbench.Domain.Qa.Findings.{
  QaFinding, is_qa_approval_allowed, assert_qa_approval_allowed, qa_finding, plain, at_source,
  at_section, unreferenced_source, empty_required_section,
}
use ai_research_workbench.Domain.Qa.Rules.{
  ClaimResult, claim_results, run_qa_rules, citation_findings, conflict_findings, contested_by_id,
  contested_findings, statement_findings, has_verified_evidence, is_mismatch, assertion_findings,
  gap_findings, is_empty_section, section_findings, remaining_findings,
}
use ai_research_workbench.Domain.Qa.Approval.{
  IsClean, IsSettled, is_qa_approval_allowed_iff, assert_qa_approval_allowed_cases,
}

-- A supported key claim with a number, and a required section that is blank.
abbrev blank_report : QaContext
blank_report = record {
  research_date = date (some (2024, 5, 1));
  source_max_age_days = whole 30;
  sources =
      record {
        id = 1 ∷ [];
        publisher = none;
        published_at = none;
        content_hash = none;
        duplicate_of_source_id = none;
      }
      ∷ [];
  evidence =
      record { id = 2 ∷ []; source_id = 1 ∷ []; verification_status = Support.verified } ∷ [];
  claims =
      record {
        id = 3 ∷ [];
        importance = critical;
        include_in_report = true;
        verification_possible = true;
      }
      ∷ [];
  claim_evidence =
      record {
        claim_id = 3 ∷ [];
        evidence_id = 2 ∷ [];
        relationship = Support.supports;
        support_extent = none;
      }
      ∷ [];
  conflicts = [];
  research_gaps = [];
  report = record {
    citation_ids = [];
    sections = record { id = 4 ∷ []; required = true; content = 32 ∷ [] } ∷ [];
    statements =
        record { id = 5 ∷ []; location = []; classification = fact; within_scope = true } ∷ [];
    quantitative_assertions =
        record {
          id = 6 ∷ [];
          location = [];
          evidence_id = some (2 ∷ []);
          date_matches_source = some true;
          unit_matches_source = none;
          value_matches_source = some true;
        }
        ∷ [];
  };
}

abbrev reported : List QaFinding
reported =
    qa_finding unreferenced_source (plain (1 ∷ [])) (at_source (1 ∷ []))
    ∷ qa_finding empty_required_section (plain (4 ∷ [])) (at_section (4 ∷ []))
    ∷ []

blank_report_findings : run_qa_rules blank_report ≡ ok reported
unfolding assess_source_freshness age_limit calculate_claim_support_status outdated_findings
    duplicate_findings concentration_findings unreferenced_findings find_issues_from
    find_citation_id_issues claim_results run_qa_rules citation_findings conflict_findings
    contested_by_id contested_findings statement_findings has_verified_evidence is_mismatch
    assertion_findings gap_findings is_empty_section section_findings remaining_findings text_eq
blank_report_findings = refl

is_qa_approval_allowed_iff_example :
    (results : List ClaimResult) × (claim_results blank_report blank_report.claims ≡ ok results)
    × ((is_qa_approval_allowed reported ≡ true) ↔ IsClean blank_report results)
is_qa_approval_allowed_iff_example = is_qa_approval_allowed_iff blank_report blank_report_findings

assert_qa_approval_allowed_cases_example :
    (All IsSettled reported × (assert_qa_approval_allowed reported ≡ ok tt))
    ⊎ ((¬ All IsSettled reported)
        × (assert_qa_approval_allowed reported ≡ throw (error qa_approval_blocked)))
assert_qa_approval_allowed_cases_example = assert_qa_approval_allowed_cases reported
