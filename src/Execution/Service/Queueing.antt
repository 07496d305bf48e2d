-- ===== src/Execution/Service/Queueing.antt =====
-- workflow_execution_service.py: `queue`.
use agency_os.Prelude.{
  ℕ, ◌+◌, String, Bool, true, false, ◌&&◌, ◌||◌, not, Option, none, some, List, [], ◌∷◌, ◌==◌, leb,
  length, select, if◌then◌else◌,
}
use text.Mathlib.Text.{◌==◌ as str_eq}
use agency_os.Automation.{block_queue_if_paused}
use agency_os.Db.Tables.{
  Db, Execution, ExecutionStatus, ExecutionEventType, execution_queued, RetryBackoff, Fields,
  Workflow, Trigger, is_active, is_pending,
}
use agency_os.Db.Session.{M, ◌>>=◌, ◌>>◌, pure, raise, gets, modify, refuse_if}
use agency_os.Execution.Service.Helpers.{Env, audit, timeline, count}

-- schemas/workflow_execution.py
pub record WorkflowExecutionCreate : Type 0 where
  pub organization_id : Option ℕ
  pub workflow_id : ℕ
  pub trigger_id : Option ℕ
  pub input : Fields
  pub max_attempts : ℕ
  pub retry_delay_seconds : ℕ
  pub retry_backoff : RetryBackoff
  pub trace_id : Option ℕ
  pub idempotency_key : Option String

-- What the insert of a row draws: the two `uuid4()` and the time.
pub record Fresh : Type 0 where
  pub id : ℕ
  pub trace_id : ℕ
  pub now : ℕ

abbrev pub or_given : ℕ → Option ℕ → ℕ
or_given default none = default
or_given default (some x) = x

unfoldable pub new_execution : WorkflowExecutionCreate → ℕ → Option ℕ → Fresh → Execution
new_execution d organization_id requested_by fresh = record {
  id = fresh.id;
  organization_id = organization_id;
  workflow_id = d.workflow_id;
  trigger_id = d.trigger_id;
  status = ExecutionStatus.queued;
  input = d.input;
  output = none;
  error = none;
  created_at = fresh.now;
  started_at = none;
  finished_at = none;
  attempts = 0;
  max_attempts = d.max_attempts;
  retry_delay_seconds = d.retry_delay_seconds;
  retry_backoff = d.retry_backoff;
  next_retry_at = none;
  requested_by_user_id = requested_by;
  trace_id = some (or_given fresh.trace_id d.trace_id);
  cancel_requested_at = none;
  cancelled_by_user_id = none;
  idempotency_key = d.idempotency_key;
}

unfoldable pub find_workflow : ℕ → ℕ → List Workflow → Option Workflow
find_workflow organization_id workflow_id [] = none
find_workflow organization_id workflow_id (w ∷ ws) =
    let rest = find_workflow organization_id workflow_id ws in
    if w.organization_id == organization_id && w.id == workflow_id then some w else rest

-- `count_pending`: QUEUED and RETRYING rows of the organization
unfoldable pub count_pending : ℕ → List Execution → ℕ
count_pending organization_id es =
    length (select (λ e. e.organization_id == organization_id && is_pending e.status) es)

-- the unique index on (organization_id, idempotency_key) where the key is not null
abbrev pub same_key : Option String → Option String → Bool
same_key none _ = false
same_key (some k) none = false
same_key (some k) (some j) = str_eq k j

-- the primary key and the unique index, against the rows that are there
unfoldable pub collides : Execution → List Execution → Bool
collides e [] = false
collides e (x ∷ xs) =
    x.id == e.id
    || x.organization_id == e.organization_id && same_key x.idempotency_key e.idempotency_key
    || collides e xs

unfoldable pub has_trigger : Option ℕ → List Trigger → Bool
has_trigger none ts = true
has_trigger (some t) [] = false
has_trigger (some t) (x ∷ xs) = x.id == t || has_trigger (some t) xs

-- The insert breaks a constraint: a key is taken, `max_attempts > 0` fails, or the trigger is gone.
unfoldable pub violates : Execution → Db → Bool
unfolding collides has_trigger
violates e db =
    collides e db.executions || e.max_attempts == 0 || not (has_trigger e.trigger_id db.triggers)

-- A key that is absent or empty is false.
abbrev pub is_given : Option String → Bool
is_given none = false
is_given (some k) = not (str_eq k "")

unfoldable pub insert : Execution → M (Unit {0})
insert e = modify λ db. record db { executions = e ∷ db.executions }

abbrev pub organization_or_400 : Option ℕ → M ℕ
organization_or_400 none = raise "execution.organization_required" 400
organization_or_400 (some o) = pure o

abbrev pub workflow_or_404 : Option Workflow → M Workflow
workflow_or_404 none = raise "workflow.not_found" 404
workflow_or_404 (some w) = pure w

-- Audit, flush and timeline of the new row. The audit row is built before the flush, when the
-- execution has no id yet, so its `entity_id` is None. A refused insert rolls the audit row back.
unfoldable pub enqueue : Env → Execution → Option ℕ → M Execution
unfolding violates insert
enqueue env e requested_by = do
  broken ← gets (violates e)
  refuse_if broken
      (if is_given e.idempotency_key
        then "execution.duplicate_idempotency_key"
        else "execution.create_failed")
      409
  audit e none execution_queued requested_by none
  insert e
  timeline env e ExecutionEventType.queued
  count (λ m. record m { queued_total = m.queued_total + 1 })
  pure e

unfoldable pub queue : Env → Fresh → WorkflowExecutionCreate → Option ℕ → Bool → M Execution
queue env fresh d requested_by bypass_pending_cap = do
  block_queue_if_paused
  organization_id ← organization_or_400 d.organization_id
  found ← gets (λ db. find_workflow organization_id d.workflow_id db.workflows)
  workflow ← workflow_or_404 found
  refuse_if (not (is_active workflow.status)) "workflow.not_active" 400
  pending ← gets (λ db. count_pending organization_id db.executions)
  refuse_if (not bypass_pending_cap && leb env.max_pending_per_org pending)
      "execution.pending_cap_exceeded" 409
  enqueue env (new_execution d organization_id requested_by fresh) requested_by
