-- ===== src/Domain/Qa.antt =====
-- lib/domain/qa.ts: the deterministic rules that a report passes before it is approved.
pub mod Context
pub mod Findings
pub mod Sources
pub mod Rules
pub mod Blocking
pub mod Approval
