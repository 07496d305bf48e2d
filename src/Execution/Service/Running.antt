-- ===== src/Execution/Service/Running.antt =====
-- workflow_execution_service.py: `start`, `complete`, `fail`, `fail_queued` and `timeout`. Each
-- reads the row, refuses a wrong status, and then relies on the guarded UPDATE alone: what other
-- sessions commit in between is `others`. `now` is the method's reading of the clock.
use agency_os.Prelude.{ℕ, ◌+◌, Bool, ◌&&◌, Option, none, some, ltb, is_some, if◌then◌else◌}
use agency_os.Db.Tables.{
  Execution, ExecutionStatus, ExecutionEventType, Fields, field, end, text, is_queued, is_running,
  is_retrying, is_cancelled, execution_started, execution_completed, execution_failed,
  execution_cancelled,
}
use agency_os.Db.Session.{M, ◌>>=◌, ◌>>◌, pure}
use agency_os.Execution.Repository.{
  get_or_404, mark_started, mark_succeeded, mark_failed, mark_failed_if_queued,
  mark_cancelled_after_run, mark_timed_out,
}
use agency_os.Execution.Service.Helpers.{
  Env, Others, yield_to, assert_payload_size, duration_ms, record_duration, audit, timeline,
  count_cancelled, count_failed, count_timed_out, require_state, or_else, or_409,
  retry_delay_seconds,
}

-- whether a failure of the row as it was read schedules another attempt
unfoldable pub schedules_retry : Bool → Execution → Bool
schedules_retry schedule_retry e = schedule_retry && ltb e.attempts e.max_attempts

abbrev pub failure_status : Bool → ExecutionStatus
failure_status retry = if retry then ExecutionStatus.retrying else ExecutionStatus.failed

abbrev pub timeout_error : Fields
timeout_error = field "error" (text "execution timed out") end

module _ (env : Env) (others : Others) (now organization_id execution_id : ℕ) where
  unfoldable pub start : Option ℕ → M Execution
  start actor = do
    execution ← get_or_404 organization_id execution_id
    require_state (is_queued execution.status)
    yield_to others 0
    marked ← mark_started organization_id execution_id now
    updated ← or_409 marked
    audit updated (some updated.id) execution_started actor none
    timeline env updated ExecutionEventType.started
    pure updated

  -- the second UPDATE, for a run that a concurrent cancel has flagged
  unfoldable pub cancel_after_run : M (Option Execution)
  cancel_after_run = do yield_to others 1; mark_cancelled_after_run organization_id execution_id now

  -- the audit, timeline and metrics of a run that ends CANCELLED
  unfoldable pub note_cancelled : Execution → M (Unit {0})
  note_cancelled updated = do
    let d = duration_ms env updated.started_at (some now)
    audit updated (some updated.id) execution_cancelled none d
    timeline env updated ExecutionEventType.cancelled

  unfoldable pub note_completed : Execution → Option ℕ → M (Unit {0})
  note_completed updated actor = do
    let d = duration_ms env updated.started_at (some now)
    audit updated (some updated.id) execution_completed actor d
    timeline env updated ExecutionEventType.succeeded

  unfoldable pub complete : Fields → Option ℕ → M Execution
  unfolding cancel_after_run note_cancelled note_completed
  complete output actor = do
    assert_payload_size env output
    execution ← get_or_404 organization_id execution_id
    require_state (is_running execution.status)
    yield_to others 0
    marked ← mark_succeeded organization_id execution_id output now
    marked' ← or_else marked cancel_after_run
    updated ← or_409 marked'
    if is_cancelled updated.status then note_cancelled updated else note_completed updated actor
    record_duration updated.status (duration_ms env updated.started_at (some now))
    pure updated

  unfoldable pub note_failed : Execution → ExecutionStatus → Option ℕ → M (Unit {0})
  note_failed updated to_status actor = do
    let d = duration_ms env updated.started_at (some now)
    audit updated (some updated.id) execution_failed actor d
    timeline env updated
        (if is_retrying to_status then ExecutionEventType.retrying else ExecutionEventType.failed)
    if is_retrying to_status then pure tt else count_failed

  -- `fail` on a row whose cancel flag was read
  unfoldable pub fail_flagged : M Execution
  fail_flagged = do
    yield_to others 0
    marked ← mark_cancelled_after_run organization_id execution_id now
    updated ← or_409 marked
    note_cancelled updated
    record_duration ExecutionStatus.cancelled (duration_ms env updated.started_at (some now))
    count_cancelled
    pure updated

  -- `fail` on a row with no cancel flag
  unfoldable pub fail_unflagged : Fields → Bool → Option ℕ → Execution → M Execution
  fail_unflagged error retry actor execution = do
    yield_to others 0
    marked ←
        mark_failed organization_id execution_id error (failure_status retry)
          (if retry then some (now + retry_delay_seconds execution) else none)
          (if retry then none else some now)
    marked' ← or_else marked cancel_after_run
    updated ← or_409 marked'
    if is_cancelled updated.status
        then note_cancelled updated
        else note_failed updated (failure_status retry) actor
    record_duration updated.status (duration_ms env updated.started_at (some now))
    pure updated

  unfoldable pub fail : Fields → Bool → Option ℕ → M Execution
  fail error schedule_retry actor = do
    assert_payload_size env error
    execution ← get_or_404 organization_id execution_id
    require_state (is_running execution.status)
    if is_some execution.cancel_requested_at
        then fail_flagged
        else fail_unflagged error (schedules_retry schedule_retry execution) actor execution

  unfoldable pub fail_queued : Fields → M Execution
  fail_queued error = do
    assert_payload_size env error
    execution ← get_or_404 organization_id execution_id
    require_state (is_queued execution.status)
    yield_to others 0
    marked ← mark_failed_if_queued organization_id execution_id error now
    updated ← or_409 marked
    audit updated (some updated.id) execution_failed none none
    timeline env updated ExecutionEventType.failed
    count_failed
    pure updated

  unfoldable pub note_timed_out : Execution → M (Unit {0})
  note_timed_out updated = do
    timeline env updated ExecutionEventType.timed_out
    record_duration ExecutionStatus.timed_out
        (duration_ms env updated.started_at updated.finished_at)
    count_timed_out

  unfoldable pub note_timeout_cancelled : Execution → M (Unit {0})
  note_timeout_cancelled updated = do
    timeline env updated ExecutionEventType.cancelled
    record_duration ExecutionStatus.cancelled
        (duration_ms env updated.started_at updated.finished_at)
    count_cancelled

  unfoldable pub timeout : M Execution
  unfolding cancel_after_run note_timed_out note_timeout_cancelled
  timeout = do
    execution ← get_or_404 organization_id execution_id
    require_state (is_running execution.status)
    yield_to others 0
    marked ← mark_timed_out organization_id execution_id timeout_error now
    marked' ← or_else marked cancel_after_run
    updated ← or_409 marked'
    if is_cancelled updated.status then note_timeout_cancelled updated else note_timed_out updated
    pure updated
