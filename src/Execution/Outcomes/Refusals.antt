-- ===== src/Execution/Outcomes/Refusals.antt =====
-- When the methods refuse: the error that they raise, and that nothing has changed.
use agency_os.Prelude.{ℕ, ◌≤◌, ◌≡◌, Bool, true, false, Option, some, arith, ◌||◌}
use agency_os.Db.Tables.{
  Db, Execution, Fields, is_running, is_queued, is_retryable, is_pending, is_cancelled,
}
use agency_os.Db.Session.{M, ok, err, AppError}
use agency_os.Execution.Repository.{find_row, get_or_404}
use agency_os.Execution.Repository.Laws.{get_or_404_found}
use agency_os.Execution.Service.Helpers.{Env, Others, assert_payload_size}
use agency_os.Execution.Service.Running.{start, complete, fail, fail_queued, timeout}
use agency_os.Execution.Service.Requeue.{retry}
use agency_os.Execution.Service.Cancel.{cancel}
use agency_os.Automation.{block_if_paused, is_enabled}

abbrev pub invalid_state_error : AppError
invalid_state_error = record { code = "execution.invalid_state"; status_code = 409 }

abbrev pub not_found_error : AppError
not_found_error = record { code = "workflow_execution.not_found"; status_code = 404 }

-- the call raises the error and changes nothing
abbrev pub Refuses : M Execution → AppError → Db → Type 0
Refuses m e db = m db ≡ (err e, db)

module _ (env : Env) (others : Others) (now o i : ℕ) (db : Db) (e : Execution)
    (found : find_row o i db.executions ≡ some e) where
  -- A method whose status test fails on the row that it reads raises 409 and changes nothing:
  -- `start` and `fail_queued` unless it is queued, `complete`, `fail` and `timeout` unless it is
  -- running, `retry` unless it is failed, cancelled or timed out, and `cancel` if it is none of
  -- cancelled, queued, retrying and running. Payloads fit and automation is enabled.
  pub wrong_status_refused :
      (payload : Fields) (actor : Option ℕ) (schedule_retry : Bool)
      → env.payload_size payload ≤ env.max_result_size_bytes
      → is_enabled db ≡ true
      → (is_queued e.status ≡ false
          → Refuses (start env others now o i actor) invalid_state_error db
            × Refuses (fail_queued env others now o i payload) invalid_state_error db)
        × (is_running e.status ≡ false
            → Refuses (complete env others now o i payload actor) invalid_state_error db
              × Refuses
                  (fail env others now o i payload schedule_retry actor)
                  invalid_state_error
                  db
              × Refuses (timeout env others now o i) invalid_state_error db)
        × (is_retryable e.status ≡ false
            → Refuses (retry env others now o i actor) invalid_state_error db)
        × ((is_cancelled e.status || is_pending e.status || is_running e.status) ≡ false
            → Refuses (cancel env others now o i actor) invalid_state_error db)
  unfolding start complete fail fail_queued timeout retry cancel assert_payload_size block_if_paused
      is_enabled
  wrong_status_refused payload actor schedule_retry small open' = (
    λ h. (ground (arith, get), ground (arith, get)),
    λ h. (ground (arith, get), ground (arith, get), ground (arith, get)),
    λ h. ground (arith, get),
    λ h. ground (arith, get),
  )
    where
      get : get_or_404 o i db ≡ (ok e, db)
      get = get_or_404_found o i db e found
