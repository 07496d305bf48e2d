-- ===== src/Execution/Outcomes/Cancelling.antt =====
-- workflow_execution_service.py: `cancel` in each status, and the end of a run that it has flagged.
use agency_os.Prelude.{
  ℕ, ◌+◌, ◌≤◌, ◌≡◌, Bool, true, Option, some, arith, ◌&&◌, ◌||◌, false, is_some,
}
use agency_os.Db.Tables.{Db, Execution, running, cancelled, is_running, is_pending, Fields}
use agency_os.Db.Session.{ok}
use agency_os.Execution.Repository.{
  find_row, get, update_where, is_open, is_in_flight, cancel_pending_values, flag_values,
  cancel_after_run_values,
}
use agency_os.Execution.Repository.Laws.{
  get_or_404_found, update_row_hit, update_row_found, update_row_miss, find_row-is_row,
}
use agency_os.Execution.Service.Helpers.{Env, alone, audit, timeline, count, record_duration}
use agency_os.Execution.Service.Running.{complete, fail, timeout}
use agency_os.Execution.Service.Cancel.{cancel}
use agency_os.Execution.Outcomes.Finish.{complete_lem, fail_lem, timeout_lem}

module _ (env : Env) (now o i : ℕ) (by : Option ℕ) (db : Db) (e : Execution)
    (found : find_row o i db.executions ≡ some e) where
  -- A pending execution with no cancel flag is stored CANCELLED at once, with who asked and when,
  -- and counted.
  pub cancel_pending :
      is_open e ≡ true
      → let (r, db') = cancel env alone now o i by db in
        (r ≡ ok (cancel_pending_values now by now e))
        × (find_row o i db'.executions ≡ some (cancel_pending_values now by now e))
        × (db'.metrics.cancelled_total ≡ db.metrics.cancelled_total + 1)
  unfolding cancel audit timeline count record_duration update_where
  cancel_pending opens = ground (
    arith,
    get_or_404_found o i db e found,
    find_row-is_row o i db.executions e found,
    update_row_hit o i is_open (cancel_pending_values now by now) db.executions e found,
    update_row_found o i is_open (cancel_pending_values now by now) db.executions e found,
  )

  -- A running execution with no cancel flag keeps running and is flagged, with who asked and when.
  pub cancel_running :
      is_in_flight e ≡ true
      → let (r, db') = cancel env alone now o i by db in
        (r ≡ ok (flag_values now by e))
        × (find_row o i db'.executions ≡ some (flag_values now by e))
        × (db'.metrics.cancelled_total ≡ db.metrics.cancelled_total)
  unfolding cancel audit timeline count record_duration update_where
  cancel_running runs = ground (
    arith,
    get_or_404_found o i db e found,
    find_row-is_row o i db.executions e found,
    update_row_hit o i is_in_flight (flag_values now by) db.executions e found,
    update_row_found o i is_in_flight (flag_values now by) db.executions e found,
  )

  -- A pending or running execution that is flagged already is returned as it is, and nothing changes.
  pub cancel_flagged :
      (is_pending e.status || is_running e.status) ≡ true
      → is_open e ≡ false
      → is_in_flight e ≡ false
      → cancel env alone now o i by db ≡ (ok e, db)
  unfolding cancel audit timeline count record_duration update_where get
  cancel_flagged live closed landed = ground (
    arith,
    get_or_404_found o i db e found,
    update_row_miss o i is_open (cancel_pending_values now by now) db.executions e found closed,
    update_row_miss o i is_in_flight (flag_values now by) db.executions e found landed,
  )

  -- Cancelling again what is cancelled, or what runs with a cancel flag, returns the row and changes
  -- nothing.
  pub cancel_again :
      ((e.status ≡ cancelled) → cancel env alone now o i by db ≡ (ok e, db))
      × ((is_running e.status && is_some e.cancel_requested_at) ≡ true
          → cancel env alone now o i by db ≡ (ok e, db))
  unfolding cancel audit timeline count record_duration update_where get
  cancel_again = (
    λ h. ground (arith, get_or_404_found o i db e found),
    λ h. ground (
      arith,
      get_or_404_found o i db e found,
      update_row_miss o i is_in_flight (flag_values now by) db.executions e found,
    ),
  )

module _ (env : Env) (asked ends o i : ℕ) (by : Option ℕ) (db : Db) (e : Execution)
    (found : find_row o i db.executions ≡ some e) (runs : is_in_flight e ≡ true) where
  -- A cancel that is requested while the execution runs is honoured however the run ends: after it,
  -- `complete`, `fail` (retry asked for or not) and `timeout` all return a CANCELLED row.
  pub cancel_is_honoured :
      (payload : Fields) (schedule_retry : Bool) (actor : Option ℕ)
      → env.payload_size payload ≤ env.max_result_size_bytes
      → let db' = (cancel env alone asked o i by db).1 in
        let row = cancel_after_run_values ends (flag_values asked by e) in
        ((complete env alone ends o i payload actor db').0 ≡ ok row)
        × ((fail env alone ends o i payload schedule_retry actor db').0 ≡ ok row)
        × ((timeout env alone ends o i db').0 ≡ ok row)
  cancel_is_honoured payload schedule_retry actor small =
      let db' = (cancel env alone asked o i by db).1 in
      let row = flag_values asked by e in
      let stored : find_row o i db'.executions ≡ some row =
        (cancel_running env asked o i by db e found runs).1 in
      let running' : row.status ≡ running = ground arith in
      (
        (complete_lem env ends o i db' row stored running' payload actor small).0,
        (fail_lem env ends o i db' row stored running' payload schedule_retry actor small).0,
        (timeout_lem env ends o i db' row stored running').0,
      )
