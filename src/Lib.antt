-- ===== src/Lib.antt =====
-- AI Research Workbench
--
-- The rules and the job queue of a workbench that turns research briefs into reviewed reports. A
-- browser client creates projects and runs; a run is a pipeline of eleven stages, each of which is
-- executed as a job of a durable queue in PostgreSQL; workers claim jobs under a lease, and the
-- results are checked by pure rules before they are stored.
--
-- Where each part is modelled:
--   * Common: booleans, lists and options, text as UTF-16 units (Common/Strings), numbers as
--     millionths (Common/Number), the arithmetic of doubles (Common/Double), thrown errors
--     (Common/Outcome).
--   * Domain/Jobs, Domain/RetryPolicy, Domain/JobErrors: lib/domain/jobs.ts. `canTransitionJob` is
--     `can_transition_job`, `calculateRetryDelayMs` is `calculate_retry_delay_ms`, and so on: a
--     name in camel case has its snake-case counterpart throughout.
--   * Domain/Runs: lib/domain/research-runs.ts.
--   * Domain/Research: lib/domain/research.ts, in Gates, Freshness, Support and Citations.
--   * Execution: lib/execution/stages.ts.
--   * Domain/Qa: lib/domain/qa.ts. Context holds what the rules read, Findings the findings and the
--     tests of the approval gate, Sources the rules on sources and Rules the others and `runQaRules`.
--     Sources/Quiet, Blocking and Approval hold proofs.
--   * Auth/RateLimit: lib/auth/rate-limit.ts.
--   * Providers/Limits: lib/services/provider-limits.ts; Bounds and Grants hold proofs.
--   * Documents/Extraction: lib/documents/extraction/types.ts, which makes the drafts of an extractor
--     into blocks; Documents/Chunking: lib/documents/chunking.ts, which makes the blocks into units,
--     the units into groups, and the groups into chunks with anchors. Their children hold proofs.
--   * Store: the tables of migrations/ that the queue reads and writes, as lists of rows, and
--     `withTransaction` of lib/db.ts as a function of the tables that may throw; a throw rolls back. A call
--     inside another one joins its transaction; here each operation has its own.
--   * JobQueue: lib/services/jobs.ts. Config holds the validators, Lock the row locks, Linked the
--     reconciliation of the run and stage of a job, Rows the SET lists of the UPDATE statements,
--     Lease the calls of a worker for its job, and Claim, Cancel, Recover and Submit the operations
--     of those names. System is any sequence of these calls. Invariant and its children, Fencing,
--     Exclusion, Resubmission, Idempotence and Returns hold proofs.
--
--   * Budgets: lib/budgets/index.ts; Limits holds proofs.
--   * Security: lib/security/url.ts. Addresses tells public IP addresses from others, Urls validates
--     URLs and what their hosts resolve to, and Fetch is the loop of `safeFetch` over redirects, with
--     the list of the requests that it makes. Ranges, Hosts and Requests hold proofs.
--   * MutationReceipts: lib/services/mutation-receipts.ts; Replay and Memo hold proofs.
--
-- Choices of the model:
--   * Times are milliseconds and NOW() is a field of the tables. Transactions run one at a time:
--     the row locks of PostgreSQL serialise them, and lock order and waiting are not modelled. The
--     rows that SKIP LOCKED leaves out of a claim are a parameter.
--   * `hash`, the SHA-256 of canonical JSON (node:crypto), and `id_le`, the order of the database's
--     collation, are parameters, and nothing is assumed of them. JSON columns hold serialised text.
--   * Numbers that reach a validator are integers of millionths, NaN or an infinity. Where the source
--     computes with fractions, for costs and for the jitter of a retry, the model computes with IEEE
--     754 doubles, as naturals in units of 2^-1074 that are rounded after each operation. Counts,
--     lengths and times are natural numbers. Random draws are arguments.
--   * The messages of errors, the details of job events and the states before and after of audit
--     records are left out, as are the identifiers drawn for attempts, events and audit records.
--   * Every loop is a recursion on a list or a text, but for two. That of `splitBlock` has the length
--     of the block as fuel: each round starts at a later character. That of `safeFetch` has 12 rounds:
--     its guard on the redirects, at most 10, ends it after 11.
--   * The digests of chunks and blocks are parameters, of which nothing is assumed.
--
-- Not modelled: HTTP routes, React components, the providers, the parsers of document formats,
-- object storage and exports, and the services over the database but those named above.
pub mod Common
pub mod Domain
pub mod Auth
pub mod Providers
pub mod Documents
pub mod MutationReceipts
pub mod Security
pub mod Budgets
pub mod Execution
pub mod Store
pub mod JobQueue
pub mod Examples
