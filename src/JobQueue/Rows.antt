-- ===== src/JobQueue/Rows.antt =====
-- lib/services/jobs.ts: the SET lists of the UPDATE statements on `jobs`, as functions of the row.
use ai_research_workbench.Common.{
  ℕ, ◌+◌, Bool, true, Option, none, some, ◌==◌, if◌then◌else◌, Text, text,
}
use ai_research_workbench.Domain.Jobs.{
  JobStatus, JobStatus_eq, queued, claimed, running, retry_wait, succeeded, failed, dead_letter,
  status_eq, JobErrorClass, unknown,
}
use ai_research_workbench.Store.Tables.{JobRow}

-- COALESCE(started_at, NOW())
or_now : Option ℕ → ℕ → ℕ
or_now none now = now
or_now (some t) now = t

-- `updated_at = NOW(), version = version + 1`
touched : ℕ → JobRow → JobRow
touched now j = record j { updated_at = now; version = j.version + 1 }

-- `lease_owner = NULL, lease_expires_at = NULL, heartbeat_at = NULL`
unleased : JobRow → JobRow
unleased j = record j { lease_owner = none; lease_expires_at = none; heartbeat_at = none }

unfoldable pub claimed_row : ℕ → Text → ℕ → JobRow → JobRow
unfolding touched
claimed_row now worker lease_ms j = touched now (record j {
  status = claimed;
  attempts = j.attempts + 1;
  claimed_at = some now;
  lease_owner = some worker;
  lease_expires_at = some (now + lease_ms);
  heartbeat_at = some now;
  error_class = none;
  sanitized_error = none;
})

unfoldable pub started_row : ℕ → JobRow → JobRow
unfolding touched or_now
started_row now j = touched now (record j {
  status = running;
  started_at = some (or_now j.started_at now);
  heartbeat_at = some now;
})

unfoldable pub heartbeat_row : ℕ → ℕ → JobRow → JobRow
unfolding touched
heartbeat_row now lease_ms j =
    touched now (record j { heartbeat_at = some now; lease_expires_at = some (now + lease_ms) })

unfoldable pub completed_row : ℕ → Text → Text → JobRow → JobRow
unfolding touched unleased
completed_row now reference hash j = touched now (
    unleased (record j {
      status = succeeded;
      output_reference = some reference;
      output_hash = some hash;
      completed_at = some now;
    }))

-- CASE WHEN status = 'RETRY_WAIT' THEN at ELSE scheduled_at END
rescheduled : JobStatus → ℕ → ℕ → ℕ
unfolding status_eq
rescheduled status at old = if status == retry_wait then at else old

-- CASE WHEN status IN ('FAILED', 'DEAD_LETTER') THEN NOW() ELSE NULL END
ended_at : Bool → ℕ → Option ℕ
ended_at ended now = if ended then some now else none

unfoldable pub failed_row : ℕ → JobStatus → ℕ → JobErrorClass → Text → JobRow → JobRow
unfolding touched unleased rescheduled ended_at status_eq
failed_row now target delay_ms error_class message j = touched now (
    unleased (record j {
      status = target;
      scheduled_at = rescheduled target (now + delay_ms) j.scheduled_at;
      completed_at = ended_at (if target == failed then true else target == dead_letter) now;
      error_class = some error_class;
      sanitized_error = some message;
    }))

-- A request ends a job that no worker holds, and else leaves its lease.
unfoldable pub cancel_requested_row : ℕ → JobStatus → JobRow → JobRow
unfolding touched status_eq
cancel_requested_row now target j = touched now (record j {
  status = target;
  cancellation_requested_at = some now;
  completed_at = if target == JobStatus.cancelled then some now else j.completed_at;
  lease_owner = if target == JobStatus.cancelled then none else j.lease_owner;
  lease_expires_at = if target == JobStatus.cancelled then none else j.lease_expires_at;
  heartbeat_at = if target == JobStatus.cancelled then none else j.heartbeat_at;
})

unfoldable pub acknowledged_row : ℕ → JobRow → JobRow
unfolding touched unleased
acknowledged_row now j = touched now (
    unleased (record j {
      status = JobStatus.cancelled;
      completed_at = some now;
      error_class = some JobErrorClass.cancelled;
      sanitized_error = some (text "Cancellation acknowledged by worker.");
    }))

unfoldable pub released_row : ℕ → JobStatus → JobRow → JobRow
unfolding touched unleased rescheduled ended_at status_eq
released_row now target j = touched now (
    unleased (record j {
      status = target;
      scheduled_at = rescheduled target now j.scheduled_at;
      completed_at = ended_at (target == JobStatus.cancelled) now;
      error_class =
          if target == JobStatus.cancelled then some JobErrorClass.cancelled else j.error_class;
    }))

unfoldable pub recovered_row : ℕ → JobStatus → ℕ → JobRow → JobRow
unfolding touched unleased rescheduled ended_at status_eq
recovered_row now target delay_ms j = touched now (
    unleased (record j {
      status = target;
      scheduled_at = rescheduled target (now + delay_ms) j.scheduled_at;
      completed_at =
          ended_at (if target == JobStatus.cancelled then true else target == dead_letter) now;
      error_class =
          some (if target == JobStatus.cancelled then JobErrorClass.cancelled else unknown);
      sanitized_error = some (
          if target == JobStatus.cancelled
          then text "Cancellation completed after the worker lease expired."
          else text "Worker lease expired before completion.");
    }))

unfoldable pub retried_row : ℕ → JobRow → JobRow
unfolding touched unleased
retried_row now j = touched now (
    unleased (record j {
      status = queued;
      max_attempts = j.attempts + 1;
      scheduled_at = now;
      claimed_at = none;
      started_at = none;
      completed_at = none;
      error_class = none;
      sanitized_error = none;
      cancellation_requested_at = none;
    }))
