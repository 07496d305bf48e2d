-- ===== src/Execution/Outcomes/Finish.antt =====
-- What `complete`, `fail` and `timeout` make of a run, with no other session in between.
use agency_os.Prelude.{
  ℕ, ◌+◌, ◌-◌, ◌*◌, ◌^◌, ◌≤◌, ◌≡◌, refl, ◌&&◌, ltb, Bool, Option, none, some, arith, Bool-cases,
  inl, inr, is_some, if◌then◌else◌,
}
use agency_os.Db.Tables.{
  Db, Execution, running, retrying, failed, cancelled, Fields, RetryBackoff, constant, exponential,
}
use agency_os.Db.Session.{ok}
use agency_os.Execution.Repository.{
  find_row, is_in_flight, is_flagged, succeed_values, cancel_after_run_values, fail_values,
  time_out_values, update_where,
}
use agency_os.Execution.Repository.Laws.{
  update_row_hit, update_row_found, update_row_miss, find_row-is_row, get_or_404_found,
}
use agency_os.Execution.Service.Helpers.{
  Env, alone, audit, timeline, count, record_duration, assert_payload_size, retry_delay_seconds,
}
use agency_os.Execution.Service.Running.{
  complete, fail, timeout, schedules_retry, fail_flagged, fail_unflagged, failure_status,
  timeout_error, note_failed, note_cancelled, cancel_after_run,
}

-- the delay before the next attempt
abbrev pub backoff : RetryBackoff → ℕ → ℕ → ℕ
backoff constant base attempts = base
backoff exponential base attempts = base * 2 ^ (attempts - 1)

backoff_lem :
    (b : RetryBackoff) (e : Execution)
    → retry_delay_seconds (record e { retry_backoff = b })
      ≡ backoff b e.retry_delay_seconds e.attempts
unfolding retry_delay_seconds
backoff_lem constant e = refl
backoff_lem exponential e = refl

retry_delay_lem :
    (e : Execution)
    → retry_delay_seconds e ≡ backoff e.retry_backoff e.retry_delay_seconds e.attempts
retry_delay_lem e = backoff_lem e.retry_backoff e

-- the row of a run after a failure at `now`
abbrev pub after_failure : ℕ → Fields → Bool → Execution → Execution
after_failure now error schedule_retry e =
    if is_some e.cancel_requested_at
    then (record e { status = cancelled; finished_at = some now })
    else (if schedule_retry && ltb e.attempts e.max_attempts
        then (record e {
          status = retrying;
          error = some error;
          next_retry_at = some (now + backoff e.retry_backoff e.retry_delay_seconds e.attempts);
        })
        else (record e {
          status = failed;
          error = some error;
          next_retry_at = none;
          finished_at = some now;
        }))

module _ (env : Env) (now o i : ℕ) (db : Db) (e : Execution)
    (found : find_row o i db.executions ≡ some e) (runs : e.status ≡ running) where
  -- the row after a run that returned `output`
  abbrev completed_row : Fields → Execution
  completed_row output =
      if is_some e.cancel_requested_at
      then cancel_after_run_values now e
      else succeed_values output now e

  -- `complete` on a running execution whose output fits returns and stores the row SUCCEEDED with
  -- the output, or CANCELLED where a cancel was requested; in neither case does the counter of
  -- cancelled executions move.
  pub complete_lem :
      (output : Fields) (actor : Option ℕ)
      → env.payload_size output ≤ env.max_result_size_bytes
      → let (r, db') = complete env alone now o i output actor db in
        (r ≡ ok (completed_row output))
        × (find_row o i db'.executions ≡ some (completed_row output))
        × (db'.metrics.cancelled_total ≡ db.metrics.cancelled_total)
  unfolding complete assert_payload_size audit timeline record_duration update_where
  complete_lem output actor small = elim (Bool-cases (is_some e.cancel_requested_at)) [
    | inl flagged ↦ ground (
      arith,
      get_or_404_found o i db e found,
      find_row-is_row o i db.executions e found,
      update_row_miss o i is_in_flight (succeed_values output now) db.executions e found,
      update_row_hit o i is_flagged (cancel_after_run_values now) db.executions e found,
      update_row_found o i is_flagged (cancel_after_run_values now) db.executions e found,
    )
    | inr clear ↦ ground (
      arith,
      get_or_404_found o i db e found,
      find_row-is_row o i db.executions e found,
      update_row_hit o i is_in_flight (succeed_values output now) db.executions e found,
      update_row_found o i is_in_flight (succeed_values output now) db.executions e found,
    )
  ]

  -- the row after a run that failed with `error`
  abbrev failed_row : Fields → Bool → Execution
  failed_row error retry =
      if is_some e.cancel_requested_at
      then cancel_after_run_values now e
      else fail_values error (failure_status retry)
          (if retry then some (now + retry_delay_seconds e) else none)
          (if retry then none else some now) e

  fail-failed_row :
      (error : Fields) (schedule_retry : Bool) (actor : Option ℕ)
      → env.payload_size error ≤ env.max_result_size_bytes
      → let (r, db') = fail env alone now o i error schedule_retry actor db in
        let row = failed_row error (schedules_retry schedule_retry e) in
        (r ≡ ok row)
        × (find_row o i db'.executions ≡ some row)
        × (db'.metrics.cancelled_total
            ≡ (if is_some e.cancel_requested_at then 1 else 0) + db.metrics.cancelled_total)
  unfolding fail fail_flagged fail_unflagged cancel_after_run note_cancelled note_failed
      assert_payload_size audit timeline count record_duration update_where
  fail-failed_row error schedule_retry actor small =
      elim (Bool-cases (is_some e.cancel_requested_at)) [
        | inl flagged ↦ ground (
          arith,
          get_or_404_found o i db e found,
          find_row-is_row o i db.executions e found,
          update_row_hit o i is_flagged (cancel_after_run_values now) db.executions e found,
          update_row_found o i is_flagged (cancel_after_run_values now) db.executions e found,
        )
        | inr clear ↦ ground (
          arith,
          get_or_404_found o i db e found,
          find_row-is_row o i db.executions e found,
          update_row_hit o i is_in_flight values db.executions e found,
          update_row_found o i is_in_flight values db.executions e found,
        )
      ]
    where
      values : Execution → Execution
      values =
          let retry = schedules_retry schedule_retry e in
          fail_values error (failure_status retry)
            (if retry then some (now + retry_delay_seconds e) else none)
            (if retry then none else some now)

  failed_row-after_failure :
      (error : Fields) (schedule_retry : Bool)
      → failed_row error (schedules_retry schedule_retry e)
        ≡ after_failure now error schedule_retry e
  unfolding schedules_retry
  failed_row-after_failure error schedule_retry =
      elim (Bool-cases (is_some e.cancel_requested_at)) [
        | inl flagged ↦ rw flagged refl
        | inr clear ↦ elim (Bool-cases (schedule_retry && ltb e.attempts e.max_attempts)) [
          | inl again ↦ rw (clear, again, retry_delay_lem e) refl
          | inr over ↦ rw (clear, over) refl
        ]
      ]

  -- `fail` on a running execution whose error fits returns and stores the row CANCELLED where a
  -- cancel was requested; else RETRYING where a retry is asked for and fewer attempts than
  -- `max_attempts` were made, due after `retry_delay_seconds`, doubled for every attempt after the
  -- first where the backoff is exponential; else FAILED, with no due time. The counter of cancelled
  -- executions moves for CANCELLED alone.
  pub fail_lem :
      (error : Fields) (schedule_retry : Bool) (actor : Option ℕ)
      → env.payload_size error ≤ env.max_result_size_bytes
      → let (r, db') = fail env alone now o i error schedule_retry actor db in
        (r ≡ ok (after_failure now error schedule_retry e))
        × (find_row o i db'.executions ≡ some (after_failure now error schedule_retry e))
        × (db'.metrics.cancelled_total
            ≡ (if is_some e.cancel_requested_at then 1 else 0) + db.metrics.cancelled_total)
  fail_lem error schedule_retry actor small =
      rw (← failed_row-after_failure error schedule_retry)
        (fail-failed_row error schedule_retry actor small)

  abbrev timed_out_row : Execution
  timed_out_row =
      if is_some e.cancel_requested_at
      then cancel_after_run_values now e
      else time_out_values timeout_error now e

  -- `timeout` on a running execution returns and stores the row TIMED_OUT with its error, or
  -- CANCELLED where a cancel was requested, and moves the counter of the state that it reached.
  pub timeout_lem :
      let (r, db') = timeout env alone now o i db in
      (r ≡ ok timed_out_row)
      × (find_row o i db'.executions ≡ some timed_out_row)
      × (db'.metrics.cancelled_total + db'.metrics.timed_out_total
          ≡ db.metrics.cancelled_total + db.metrics.timed_out_total + 1)
      × (db'.metrics.cancelled_total
          ≡ (if is_some e.cancel_requested_at then 1 else 0) + db.metrics.cancelled_total)
  unfolding timeout timeline count record_duration update_where
  timeout_lem = elim (Bool-cases (is_some e.cancel_requested_at)) [
    | inl flagged ↦ ground (
      arith,
      get_or_404_found o i db e found,
      find_row-is_row o i db.executions e found,
      update_row_miss o i is_in_flight (time_out_values timeout_error now) db.executions e found,
      update_row_hit o i is_flagged (cancel_after_run_values now) db.executions e found,
      update_row_found o i is_flagged (cancel_after_run_values now) db.executions e found,
    )
    | inr clear ↦ ground (
      arith,
      get_or_404_found o i db e found,
      find_row-is_row o i db.executions e found,
      update_row_hit o i is_in_flight (time_out_values timeout_error now) db.executions e found,
      update_row_found o i is_in_flight (time_out_values timeout_error now) db.executions e found,
    )
  ]
