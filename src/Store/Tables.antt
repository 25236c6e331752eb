-- ===== src/Store/Tables.antt =====
-- The rows of the tables `jobs`, `job_attempts`, `job_events`, `research_runs`,
-- `research_run_stages` and `audit_events`. A JSON column holds its serialized text.
use ai_research_workbench.Common.{ℕ, Option, List, Text}
use ai_research_workbench.Common.Int.{ℤ}
use ai_research_workbench.Domain.Jobs.{JobStatus, JobErrorClass}
use ai_research_workbench.Domain.RetryPolicy.{PolicyValue}
use ai_research_workbench.Domain.Runs.{RunStatus, StageStatus}
use ai_research_workbench.Execution.{AiStage}

-- JobRow
pub record JobRow : Type 0 where
  pub id : Text
  pub project_id : Option Text
  pub run_id : Option Text
  pub run_stage_id : Option Text
  pub stage : Option Text
  pub job_type : Text
  pub status : JobStatus
  pub priority : ℤ
  pub idempotency_key : Text
  pub input_reference : Text
  pub input_hash : Text
  pub output_reference : Option Text
  pub output_hash : Option Text
  pub attempts : ℕ
  pub max_attempts : ℕ
  pub scheduled_at : ℕ
  pub claimed_at : Option ℕ
  pub started_at : Option ℕ
  pub completed_at : Option ℕ
  pub lease_owner : Option Text
  pub lease_expires_at : Option ℕ
  pub heartbeat_at : Option ℕ
  pub timeout_ms : ℕ
  pub retry_policy : PolicyValue
  pub error_class : Option JobErrorClass
  pub sanitized_error : Option Text
  pub cancellation_requested_at : Option ℕ
  pub parent_job_id : Option Text
  pub correlation_id : Text
  pub updated_at : ℕ
  pub version : ℕ

-- The status of an attempt: that of its job, or LEASE_EXPIRED.
pub data AttemptStatus : Type 0 where
  job_status : JobStatus → AttemptStatus
  lease_expired : AttemptStatus

pub record JobAttempt : Type 0 where
  pub job_id : Text
  pub attempt_number : ℕ
  pub worker_id : Text
  pub status : AttemptStatus
  pub error_class : Option JobErrorClass
  pub sanitized_error : Option Text
  pub retry_after_ms : Option ℕ
  pub completed_at : Option ℕ

pub data EventType : Type 0 where
  job_submitted job_claimed job_started job_succeeded job_retry_scheduled job_failed : EventType
  job_cancellation_requested job_cancelled job_lease_released job_lease_expired : EventType
  job_manual_retry : EventType

pub record JobEvent : Type 0 where
  pub job_id : Text
  pub event_type : EventType
  pub from_status : Option JobStatus
  pub to_status : Option JobStatus
  pub worker_id : Option Text

-- The columns of `research_runs` that the job and stage services read or write.
pub record RunRow : Type 0 where
  pub id : Text
  pub project_id : Text
  pub status : RunStatus
  pub max_stage_attempts : ℕ  -- budget_snapshot.maxStageAttempts
  pub current_stage : Option AiStage
  pub progress : ℕ
  pub total_attempts : ℕ
  pub failure_reason : Option Text
  pub block_reason : Option Text
  pub cancelled_by : Option Text
  pub started_at : Option ℕ
  pub completed_at : Option ℕ
  pub updated_at : ℕ
  pub version : ℕ

-- The columns of `research_run_stages` that the job and stage services read or write.
pub record StageRow : Type 0 where
  pub id : Text
  pub run_id : Text
  pub stage_id : AiStage
  pub ordinal : ℕ
  pub generation : ℕ
  pub status : StageStatus
  pub input_reference : Option Text
  pub input_hash : Option Text
  pub output_reference : Option Text
  pub output_hash : Option Text
  pub attempt_count : ℕ
  pub error_class : Option JobErrorClass
  pub sanitized_error : Option Text
  pub started_at : Option ℕ
  pub completed_at : Option ℕ
  pub stale_at : Option ℕ
  pub updated_at : ℕ
  pub version : ℕ

pub data AuditAction : Type 0 where
  run_stage_job_failed research_run_cancellation_acknowledged : AuditAction
  job_cancellation_requested job_manual_retry : AuditAction

pub record AuditEvent : Type 0 where
  pub project_id : Option Text
  pub actor_label : Text
  pub action : AuditAction
  pub resource_id : Text

pub record Db : Type 0 where
  pub now : ℕ
  pub projects : List Text
  pub jobs : List JobRow
  pub attempts : List JobAttempt
  pub events : List JobEvent
  pub runs : List RunRow
  pub stages : List StageRow
  pub audit : List AuditEvent
