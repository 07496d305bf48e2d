-- ===== src/Execution/Outcomes/Requeued.antt =====
-- workflow_execution_service.py: `retry` by hand.
use agency_os.Prelude.{ℕ, ◌+◌, ◌≡◌, true, false, Option, some, arith}
use agency_os.Automation.{is_enabled, block_if_paused}
use agency_os.Db.Tables.{Db, Execution, is_retryable}
use agency_os.Db.Session.{ok, err}
use agency_os.Execution.Repository.{find_row, update_where, requeue_values}
use agency_os.Execution.Repository.Laws.{
  get_or_404_found, update_row_hit, update_row_found, find_row-is_row,
}
use agency_os.Execution.Service.Helpers.{Env, alone, audit, timeline, count}
use agency_os.Execution.Service.Requeue.{retry}

module _ (env : Env) (now o i : ℕ) (by : Option ℕ) (db : Db) where
  -- While automation is enabled, `retry` of a failed, cancelled or timed out execution returns and
  -- stores the row QUEUED, without cancel flag and due time and with the attempts that it had.
  pub retry_lem :
      (e : Execution)
      → find_row o i db.executions ≡ some e
      → is_enabled db ≡ true
      → is_retryable e.status ≡ true
      → let (r, db') = retry env alone now o i by db in
        (r ≡ ok (requeue_values e))
        × (find_row o i db'.executions ≡ some (requeue_values e))
        × (db'.metrics.retried_total ≡ db.metrics.retried_total + 1)
  unfolding retry audit timeline count update_where block_if_paused is_enabled
  retry_lem e found enabled retryable = ground (
    arith,
    get_or_404_found o i db e found,
    find_row-is_row o i db.executions e found,
    update_row_hit o i (λ (x : Execution). is_retryable x.status) requeue_values db.executions e
        found,
    update_row_found o i (λ (x : Execution). is_retryable x.status) requeue_values db.executions e
        found,
  )

  -- While automation is paused, `retry` raises 409 and changes nothing.
  pub retry_paused :
      is_enabled db ≡ false
      → retry env alone now o i by db
        ≡ (err (record { code = "automation.paused"; status_code = 409 }), db)
  unfolding retry block_if_paused is_enabled
  retry_paused h = ground arith
