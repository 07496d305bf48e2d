-- ===== src/Db/Tables.antt =====
-- The rows of backend/app/models (workflow_execution.py, workflow.py, workflow_trigger.py,
-- activity_log.py, execution_event.py, system_settings.py) that the automation services read and
-- write, with the enumerations of models/enums.py. Identifiers (UUIDs) and points in time are
-- numbers; the descriptions and metadata of log rows are left out.
use agency_os.Prelude.{ℕ, String, Bool, true, false, Option, List, Text}
use agency_os.Prelude.Int.{ℤ}

-- a JSONB column: `Fields` is a dict
mutual
  pub data Json : Type 0 where
    null : Json
    boolean : Bool → Json
    number : ℤ → Json
    text : String → Json
    array : Items → Json
    object : Fields → Json

  pub data Items : Type 0 where
    nil : Items
    cons : Json → Items → Items

  pub data Fields : Type 0 where
    end : Fields
    field : String → Json → Fields → Fields

pub data ExecutionStatus : Type 0 where
  queued running succeeded failed retrying cancelled timed_out : ExecutionStatus

abbrev pub is_queued : ExecutionStatus → Bool
is_queued queued = true
is_queued _ = false

abbrev pub is_running : ExecutionStatus → Bool
is_running running = true
is_running _ = false

abbrev pub is_retrying : ExecutionStatus → Bool
is_retrying retrying = true
is_retrying _ = false

abbrev pub is_cancelled : ExecutionStatus → Bool
is_cancelled cancelled = true
is_cancelled _ = false

-- `status in (QUEUED, RETRYING)`
abbrev pub is_pending : ExecutionStatus → Bool
is_pending queued = true
is_pending retrying = true
is_pending _ = false

-- `status in (FAILED, CANCELLED, TIMED_OUT)`
abbrev pub is_retryable : ExecutionStatus → Bool
is_retryable failed = true
is_retryable cancelled = true
is_retryable timed_out = true
is_retryable _ = false

-- the two values that the column's check constraint admits
pub data RetryBackoff : Type 0 where
  constant exponential : RetryBackoff

pub record Execution : Type 0 where
  pub id : ℕ
  pub organization_id : ℕ
  pub workflow_id : ℕ
  pub trigger_id : Option ℕ
  pub status : ExecutionStatus
  pub input : Fields
  pub output : Option Fields
  pub error : Option Fields
  pub created_at : ℕ
  pub started_at : Option ℕ
  pub finished_at : Option ℕ
  pub attempts : ℕ
  pub max_attempts : ℕ
  pub retry_delay_seconds : ℕ
  pub retry_backoff : RetryBackoff
  pub next_retry_at : Option ℕ
  pub requested_by_user_id : Option ℕ
  pub trace_id : Option ℕ
  pub cancel_requested_at : Option ℕ
  pub cancelled_by_user_id : Option ℕ
  pub idempotency_key : Option String

pub data ExecutionEventType : Type 0 where
  queued started adapter_dispatched adapter_returned step_started step_completed step_failed :
      ExecutionEventType
  retrying succeeded failed cancelled timed_out timeout_guard : ExecutionEventType

pub record ExecutionEvent : Type 0 where
  pub organization_id : ℕ
  pub workflow_id : ℕ
  pub execution_id : ℕ
  pub attempt : ℕ
  pub event_type : ExecutionEventType

-- the labels of `ActivityEventType` that the automation services write
pub data ActivityEventType : Type 0 where
  execution_queued execution_started execution_completed execution_failed : ActivityEventType
  execution_retried execution_cancelled automation_paused automation_resumed : ActivityEventType

pub record ActivityLog : Type 0 where
  pub organization_id : ℕ
  pub user_id : Option ℕ
  pub event_type : ActivityEventType
  pub entity_id : Option ℕ
  pub duration_ms : Option ℤ

pub data WorkflowStatus : Type 0 where
  draft active paused archived : WorkflowStatus

abbrev pub is_active : WorkflowStatus → Bool
is_active active = true
is_active _ = false

-- the two modes that the CHECK of the column admits
pub data ExecutionMode : Type 0 where
  n8n builtin : ExecutionMode

pub record Workflow : Type 0 where
  pub id : ℕ
  pub organization_id : ℕ
  pub status : WorkflowStatus
  pub execution_mode : ExecutionMode

pub record Trigger : Type 0 where
  pub id : ℕ
  pub organization_id : ℕ
  pub workflow_id : ℕ
  pub is_schedule : Bool
  pub enabled : Bool
  pub config : Fields
  pub schedule_cron : Option Text
  pub last_fired_at : Option ℕ
  pub created_at : ℕ

-- the four rows of `system_settings` that the kill switch owns, by key; `none` is a missing row
pub record SystemSettings : Type 0 where
  pub enabled : Option Bool
  pub paused_by : Option ℕ
  pub paused_at : Option ℕ
  pub paused_reason : Option String

-- the in-process counters and the duration histogram of core/metrics.py
pub record Metrics : Type 0 where
  pub queued_total : ℕ
  pub drained_total : ℕ
  pub retried_total : ℕ
  pub failed_total : ℕ
  pub timed_out_total : ℕ
  pub cancelled_total : ℕ
  pub automation_paused_total : ℕ
  pub automation_resumed_total : ℕ
  pub automation_status_reads : ℕ
  pub durations : List (ExecutionStatus × ℤ)

pub record Db : Type 0 where
  pub executions : List Execution
  pub workflows : List Workflow
  pub triggers : List Trigger
  pub settings : SystemSettings
  pub logs : List ActivityLog
  pub events : List ExecutionEvent
  pub metrics : Metrics
