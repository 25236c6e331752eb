-- ===== src/JobQueue/Invariant/Rows.antt =====
-- The UPDATE statements keep a job valid, each from the statuses that its operation allows.
use ai_research_workbench.Common.{ℕ, ◌<◌, ◌≡◌, ◌⊎◌, true, arith, Text}
use ai_research_workbench.Domain.Jobs.{
  JobStatus, queued, claimed, retry_wait, cancellation_requested, failed, dead_letter,
  is_terminal_job_status, JobErrorClass,
}
use ai_research_workbench.Store.Tables.{JobRow}
use ai_research_workbench.JobQueue.Linked.{is_active}
use ai_research_workbench.JobQueue.Rows.{
  claimed_row, started_row, heartbeat_row, completed_row, failed_row, cancel_requested_row,
  acknowledged_row, released_row, recovered_row, retried_row,
}
use ai_research_workbench.JobQueue.Invariant.{IsValid}

module _ (now : ℕ) (j : JobRow) (v : IsValid j) where
  pub claimed_row-IsValid :
      (worker : Text) (ms : ℕ)
      → (j.status ≡ queued) ⊎ (j.status ≡ retry_wait)
      → j.attempts < j.max_attempts
      → IsValid (claimed_row now worker ms j)
  unfolding claimed_row is_active is_terminal_job_status
  claimed_row-IsValid worker ms h k = ground arith

  pub started_row-IsValid : j.status ≡ claimed → IsValid (started_row now j)
  unfolding started_row is_active is_terminal_job_status
  started_row-IsValid h = ground arith

  pub heartbeat_row-IsValid :
      (ms : ℕ) → is_active j.status ≡ true → IsValid (heartbeat_row now ms j)
  unfolding heartbeat_row
  heartbeat_row-IsValid ms h = ground arith

  pub completed_row-IsValid : (reference hash : Text) → IsValid (completed_row now reference hash j)
  unfolding completed_row is_active is_terminal_job_status
  completed_row-IsValid reference hash = ground arith

  pub failed_row-IsValid :
      (target : JobStatus) (ms : ℕ) (c : JobErrorClass) (message : Text)
      → (target ≡ retry_wait) ⊎ (target ≡ failed) ⊎ (target ≡ dead_letter)
      → IsValid (failed_row now target ms c message j)
  unfolding failed_row is_active is_terminal_job_status
  failed_row-IsValid target ms c message h = ground arith

  pub acknowledged_row-IsValid : IsValid (acknowledged_row now j)
  unfolding acknowledged_row is_active is_terminal_job_status
  acknowledged_row-IsValid = ground arith

  pub released_row-IsValid :
      (target : JobStatus)
      → (target ≡ retry_wait) ⊎ (target ≡ JobStatus.cancelled)
      → IsValid (released_row now target j)
  unfolding released_row is_active is_terminal_job_status
  released_row-IsValid target h = ground arith

  pub cancel_requested_row-IsValid :
      (target : JobStatus)
      → (target ≡ JobStatus.cancelled)
        ⊎ ((target ≡ cancellation_requested) × (is_active j.status ≡ true))
      → IsValid (cancel_requested_row now target j)
  unfolding cancel_requested_row is_active is_terminal_job_status
  cancel_requested_row-IsValid target h = ground arith

  pub recovered_row-IsValid :
      (target : JobStatus) (ms : ℕ)
      → (target ≡ retry_wait) ⊎ (target ≡ JobStatus.cancelled) ⊎ (target ≡ dead_letter)
      → IsValid (recovered_row now target ms j)
  unfolding recovered_row is_active is_terminal_job_status
  recovered_row-IsValid target ms h = ground arith

  pub retried_row-IsValid : IsValid (retried_row now j)
  unfolding retried_row is_active is_terminal_job_status
  retried_row-IsValid = ground arith
