-- ===== src/Examples.antt =====
-- Concrete inputs at which the theorems apply.
mod Rules
mod Queue
mod Approval
mod Limits
mod Receipts
mod Fetch
mod Budget
mod Extraction
mod Documents
