-- ===== src/Execution/Service/Cancel.antt =====
-- workflow_execution_service.py: `cancel`. A pending execution is cancelled at once; a running one
-- is only flagged, and lands on CANCELLED when its adapter returns.
use agency_os.Prelude.{ℕ, Bool, true, false, ◌||◌, Option, none, some, if◌then◌else◌}
use agency_os.Db.Tables.{
  Execution, ExecutionStatus, ExecutionEventType, execution_cancelled, is_running, is_pending,
  is_cancelled,
}
use agency_os.Db.Session.{M, ◌>>=◌, ◌>>◌, pure, raise}
use agency_os.Execution.Repository.{
  get, get_or_404, mark_cancelled_if_pending, mark_cancel_requested,
}
use agency_os.Execution.Service.Helpers.{
  Env, Others, yield_to, duration_ms, record_duration, audit, timeline, count_cancelled,
  require_state, or_else,
}

abbrev pub or_not_found : Option Execution → M Execution
or_not_found none = raise "execution.not_found" 404
or_not_found (some e) = pure e

module _ (env : Env) (others : Others) (now organization_id execution_id : ℕ) where
  -- the UPDATEs: the flag alone for a running row, the transition and then the flag for a pending one
  unfoldable pub request : Option ℕ → Bool → M (Option Execution)
  request by true = do
    yield_to others 0
    marked ← mark_cancelled_if_pending organization_id execution_id now by now
    or_else marked (do yield_to others 1; mark_cancel_requested organization_id execution_id now by)
  request by false = do yield_to others 0; mark_cancel_requested organization_id execution_id now by

  unfoldable pub note_cancel : Option ℕ → Execution → M (Unit {0})
  note_cancel by updated = do
    audit updated (some updated.id) execution_cancelled by
        (duration_ms env updated.started_at (some now))
    timeline env updated ExecutionEventType.cancelled
    record_duration ExecutionStatus.cancelled (duration_ms env updated.started_at (some now))
    count_cancelled

  unfoldable pub cancel_live : Option ℕ → Execution → M Execution
  unfolding request note_cancel
  cancel_live by execution = do
    require_state (is_pending execution.status || is_running execution.status)
    marked ← request by (is_pending execution.status)
    marked' ← or_else marked (do yield_to others 2; get organization_id execution_id)
    updated ← or_not_found marked'
    if is_cancelled updated.status then note_cancel by updated else pure tt
    pure updated

  unfoldable pub cancel : Option ℕ → M Execution
  unfolding cancel_live
  cancel by = do
    execution ← get_or_404 organization_id execution_id
    if is_cancelled execution.status then pure execution else cancel_live by execution
