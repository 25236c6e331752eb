-- ===== src/Providers.antt =====
-- lib/services/provider-limits.ts: the limits on calls of external providers.
pub mod Limits
