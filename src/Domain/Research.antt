-- ===== src/Domain/Research.antt =====
-- lib/domain/research.ts: gates, freshness of sources, support of claims, citations and gaps.
pub mod Gates
pub mod Freshness
pub mod Support
pub mod Citations
