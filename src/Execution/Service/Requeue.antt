-- ===== src/Execution/Service/Requeue.antt =====
-- workflow_execution_service.py: `retry`, by hand, and `requeue_due`, by the worker.
use agency_os.Prelude.{ℕ, Option, none, some}
use agency_os.Automation.{block_execution_if_paused}
use agency_os.Db.Tables.{Execution, ExecutionEventType, execution_retried, is_retryable}
use agency_os.Db.Session.{M, ◌>>=◌, ◌>>◌, pure}
use agency_os.Execution.Repository.{get_or_404, mark_requeued, mark_requeued_due}
use agency_os.Execution.Service.Helpers.{
  Env, Others, yield_to, audit, timeline, count_retried, require_state, or_409,
}

module _ (env : Env) (others : Others) (now organization_id execution_id : ℕ) where
  unfoldable pub retry : Option ℕ → M Execution
  retry actor = do
    block_execution_if_paused
    execution ← get_or_404 organization_id execution_id
    require_state (is_retryable execution.status)
    yield_to others 0
    marked ← mark_requeued organization_id execution_id
    updated ← or_409 marked
    audit updated (some updated.id) execution_retried actor none
    timeline env updated ExecutionEventType.retrying
    count_retried
    pure updated

  unfoldable pub note_requeued : Option Execution → M (Option Execution)
  note_requeued none = pure none
  note_requeued (some updated) = do
    audit updated (some updated.id) execution_retried none none
    timeline env updated ExecutionEventType.queued
    count_retried
    pure (some updated)

  unfoldable pub requeue_due : M (Option Execution)
  unfolding note_requeued
  requeue_due = do
    yield_to others 0
    marked ← mark_requeued_due organization_id execution_id now
    note_requeued marked
