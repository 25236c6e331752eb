-- ===== src/Domain/Qa/Context.antt =====
-- lib/domain/qa.ts: what the rules read. Descriptions that no rule reads are left out.
use ai_research_workbench.Common.{Option, List, Bool, Text}
use ai_research_workbench.Common.Number.{JsNumber}
use ai_research_workbench.Domain.Research.Freshness.{DateInput}
use ai_research_workbench.Domain.Research.Support.{
  EvidenceRelationship, EvidenceSupportExtent, EvidenceVerificationStatus, ResearchGapStatus,
}

pub record QaSource : Type 0 where
  pub id : Text
  pub publisher : Option Text
  pub published_at : Option DateInput
  pub content_hash : Option Text
  pub duplicate_of_source_id : Option Text

pub record QaEvidence : Type 0 where
  pub id : Text
  pub source_id : Text
  pub verification_status : EvidenceVerificationStatus

pub record QaClaimEvidenceLink : Type 0 where
  pub claim_id : Text
  pub evidence_id : Text
  pub relationship : EvidenceRelationship
  pub support_extent : Option EvidenceSupportExtent

pub data QaClaimImportance : Type 0 where
  critical high medium low : QaClaimImportance

-- `verification_possible` has its default, true, filled in.
pub record QaClaim : Type 0 where
  pub id : Text
  pub importance : QaClaimImportance
  pub include_in_report : Bool
  pub verification_possible : Bool

pub record QaSourceConflict : Type 0 where
  pub id : Text
  pub claim_id : Option Text
  pub location : Text
  pub resolved : Bool

pub data QaStatementClassification : Type 0 where
  fact inference mixed : QaStatementClassification

pub record QaReportStatement : Type 0 where
  pub id : Text
  pub location : Text
  pub classification : QaStatementClassification
  pub within_scope : Bool

-- A match is `none` where it is null or missing.
pub record QaQuantitativeAssertion : Type 0 where
  pub id : Text
  pub location : Text
  pub evidence_id : Option Text
  pub date_matches_source : Option Bool
  pub unit_matches_source : Option Bool
  pub value_matches_source : Option Bool

pub record QaReportSection : Type 0 where
  pub id : Text
  pub required : Bool
  pub content : Text

pub record QaResearchGap : Type 0 where
  pub id : Text
  pub location : Text
  pub gap_status : ResearchGapStatus

pub record QaReport : Type 0 where
  pub citation_ids : List (Option Text)
  pub sections : List QaReportSection
  pub statements : List QaReportStatement
  pub quantitative_assertions : List QaQuantitativeAssertion

pub record QaContext : Type 0 where
  pub research_date : DateInput
  pub source_max_age_days : JsNumber
  pub sources : List QaSource
  pub evidence : List QaEvidence
  pub claims : List QaClaim
  pub claim_evidence : List QaClaimEvidenceLink
  pub conflicts : List QaSourceConflict
  pub research_gaps : List QaResearchGap
  pub report : QaReport
