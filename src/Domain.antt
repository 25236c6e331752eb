-- ===== src/Domain.antt =====
-- lib/domain: the rules that do not touch the database.
pub mod Jobs
pub mod RetryPolicy
pub mod Runs
pub mod JobErrors
pub mod Research
pub mod Qa
