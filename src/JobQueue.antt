-- ===== src/JobQueue.antt =====
-- lib/services/jobs.ts: the durable job queue. A transaction body is an action of `Store.Tx`; each
-- operation validates its input and then runs its body by `Store.with_transaction`.
pub mod Config
pub mod Lock
pub mod Linked
pub mod Rows
pub mod Lease
pub mod Claim
pub mod Cancel
pub mod Recover
pub mod Submit
pub mod Returns
pub mod Fencing
pub mod Exclusion
pub mod Resubmission
pub mod Idempotence
pub mod Invariant
pub mod System
