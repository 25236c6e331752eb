-- ===== src/Domain/Qa/Findings.antt =====
-- lib/domain/qa.ts: findings, their severities, and the test for approval. The text of a finding
-- and its metadata are left out; its key and location are kept by the values they are made of.
use ai_research_workbench.Common.{
  ℕ, Bool, true, false, not, ◌&&◌, List, any, filter, length, ltb, Text, if◌then◌else◌,
}
use ai_research_workbench.Common.Outcome.{Outcome, ok, throw, error, qa_approval_blocked}
use ai_research_workbench.Domain.Research.Citations.{CitationIdIssueCode}

pub data QaSeverity : Type 0 where
  blocker high medium low : QaSeverity

pub data QaResolutionStatus : Type 0 where
  open_finding resolved accepted_risk : QaResolutionStatus

pub data QaRuleCode : Type 0 where
  unsourced_key_claim invalid_citation_id outdated_source duplicate_source : QaRuleCode
  source_concentration unresolved_source_conflict fact_inference_mix : QaRuleCode
  unsupported_number date_or_unit_mismatch out_of_scope_content unreferenced_source : QaRuleCode
  source_number_mismatch open_research_gap empty_required_section : QaRuleCode

-- QA_RULE_DEFINITIONS
rule_severity : QaRuleCode → QaSeverity
rule_severity unsourced_key_claim = blocker
rule_severity invalid_citation_id = blocker
rule_severity outdated_source = high
rule_severity duplicate_source = medium
rule_severity source_concentration = high
rule_severity unresolved_source_conflict = blocker
rule_severity fact_inference_mix = high
rule_severity unsupported_number = blocker
rule_severity date_or_unit_mismatch = high
rule_severity out_of_scope_content = high
rule_severity unreferenced_source = low
rule_severity source_number_mismatch = blocker
rule_severity open_research_gap = blocker
rule_severity empty_required_section = blocker

-- A key is an identifier, `claim-` before one, or the index and code of a citation issue.
pub data FindingKey : Type 0 where
  plain : Text → FindingKey
  contested_claim : Text → FindingKey
  citation_issue : ℕ → CitationIdIssueCode → FindingKey

-- `claim:…`, `report:citations[…]`, `source:…`, `report:sources`, `report:section:…`, or as given.
pub data FindingLocation : Type 0 where
  at_claim at_source at_section given : Text → FindingLocation
  at_citation : ℕ → FindingLocation
  at_sources : FindingLocation

pub record QaFinding : Type 0 where
  pub rule_code : QaRuleCode
  pub key : FindingKey
  pub severity : QaSeverity
  pub location : FindingLocation
  pub resolution_status : QaResolutionStatus

unfoldable pub qa_finding : QaRuleCode → FindingKey → FindingLocation → QaFinding
unfolding rule_severity
qa_finding rule_code key location = record {
  rule_code = rule_code;
  key = key;
  severity = rule_severity rule_code;
  location = location;
  resolution_status = open_finding;
}

unfoldable pub is_blocker : QaSeverity → Bool
is_blocker blocker = true
is_blocker _ = false

unfoldable pub is_resolved : QaResolutionStatus → Bool
is_resolved resolved = true
is_resolved _ = false

unfoldable pub is_blocking_qa_finding : QaFinding → Bool
unfolding is_blocker is_resolved
is_blocking_qa_finding finding =
    is_blocker finding.severity && not (is_resolved finding.resolution_status)

has_blocking_qa_findings : List QaFinding → Bool
has_blocking_qa_findings findings = any is_blocking_qa_finding findings

unfoldable pub is_qa_approval_allowed : List QaFinding → Bool
unfolding has_blocking_qa_findings
is_qa_approval_allowed findings = not (has_blocking_qa_findings findings)

unfoldable pub assert_qa_approval_allowed : List QaFinding → Outcome (Unit {0})
assert_qa_approval_allowed findings =
    if ltb 0 (length (filter is_blocking_qa_finding findings))
    then throw (error qa_approval_blocked)
    else ok tt
