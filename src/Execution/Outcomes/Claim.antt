-- ===== src/Execution/Outcomes/Claim.antt =====
-- workflow_execution_service.py: `start`, alone and against another worker or a cancel.
use agency_os.Prelude.{ℕ, ◌≡◌, refl, true, false, Option, some, arith}
use agency_os.Db.Tables.{Db, Execution, is_queued}
use agency_os.Db.Session.{ok, err}
use agency_os.Execution.Repository.{find_row, is_startable, start_values, update_where}
use agency_os.Execution.Repository.Laws.{
  get_or_404_found, update_row_hit, update_row_found, update_row_miss, find_row-is_row,
}
use agency_os.Execution.Service.Helpers.{Env, Others, alone, audit, timeline}
use agency_os.Execution.Service.Running.{start}
use agency_os.Execution.Outcomes.Refusals.{invalid_state_error}

module _ (env : Env) (now o i : ℕ) (actor : Option ℕ) where
  pub start_startable :
      (db : Db) (e : Execution)
      → find_row o i db.executions ≡ some e
      → is_startable e ≡ true
      → ((start env alone now o i actor db).0 ≡ ok (start_values now e))
        × (find_row o i (start env alone now o i actor db).1.executions ≡ some (start_values now e))
  unfolding start update_where audit timeline
  start_startable db e found ready = ground (
    arith,
    get_or_404_found o i db e found,
    find_row-is_row o i db.executions e found,
    update_row_hit o i is_startable (start_values now) db.executions e found,
    update_row_found o i is_startable (start_values now) db.executions e found,
  )

  -- Whatever other sessions commit between the read and the UPDATE, a start that succeeds found the
  -- row QUEUED with no cancel flag at its UPDATE, and returns that row RUNNING with one attempt more
  -- and the start time; and a start that finds it otherwise raises 409 and adds nothing to what the
  -- others left.
  pub start_claims :
      (others : Others) (db : Db) (e e' : Execution)
      → find_row o i db.executions ≡ some e
      → is_queued e.status ≡ true
      → find_row o i (others 0 db).executions ≡ some e'
      → (is_startable e' ≡ true → (start env others now o i actor db).0 ≡ ok (start_values now e'))
        × (is_startable e' ≡ false
            → start env others now o i actor db ≡ (err invalid_state_error, others 0 db))
  unfolding start update_where audit timeline
  start_claims others db e e' found waits found' = (
    λ ready. ground (
      arith,
      get_or_404_found o i db e found,
      update_row_hit o i is_startable (start_values now) (others 0 db).executions e' found',
    ),
    λ gone. ground (
      arith,
      get_or_404_found o i db e found,
      update_row_miss o i is_startable (start_values now) (others 0 db).executions e' found',
    ),
  )

module _ (env : Env) (first_now now o i : ℕ) (first_actor actor : Option ℕ) (db : Db)
    (e : Execution) where
  -- Two workers that both read a startable row: the one whose UPDATE comes first starts it, the
  -- other gets 409 and adds nothing, and the row counts one attempt.
  pub claim_is_exclusive :
      find_row o i db.executions ≡ some e
      → is_startable e ≡ true
      → let (won, after) = start env alone first_now o i first_actor db in
        let others = λ (n : ℕ) (d : Db). (start env alone first_now o i first_actor d).1 in
        (won ≡ ok (start_values first_now e))
        × (start env others now o i actor db ≡ (err invalid_state_error, after))
        × (find_row o i after.executions ≡ some (start_values first_now e))
  claim_is_exclusive found ready =
      let (won, stored) = start_startable env first_now o i first_actor db e found ready in
      let others : Others = λ n d. (start env alone first_now o i first_actor d).1 in
      (
        won,
        (start_claims env now o i actor others db e (start_values first_now e) found (ground arith)
              stored).1
            refl,
        stored,
      )
