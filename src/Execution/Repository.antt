-- ===== src/Execution/Repository.antt =====
-- backend/app/repositories/workflow_execution.py: the lookups, the queue reads, and the guarded
-- transitions, each a single `UPDATE ... WHERE ... RETURNING`. The id is the primary key, so at
-- most one row has it, and the first with the key is the row.
pub mod Laws
use agency_os.Prelude.{
  ℕ, ◌+◌, Bool, false, ◌&&◌, Option, none, some, List, [], ◌∷◌, ◌==◌, leb, is_none, is_some,
  if◌then◌else◌,
}
use agency_os.Db.Tables.{
  Execution, ExecutionStatus, queued, running, succeeded, failed, cancelled, timed_out, is_queued,
  is_running, is_retrying, is_pending, is_retryable, Fields,
}
use agency_os.Db.Session.{M, ◌>>=◌, gets, pure, raise}

-- `organization_id == organization_id and id == execution_id`
abbrev pub is_row : ℕ → ℕ → Execution → Bool
is_row organization_id execution_id e = e.organization_id == organization_id && e.id == execution_id

unfoldable pub find_row : ℕ → ℕ → List Execution → Option Execution
find_row organization_id execution_id [] = none
find_row organization_id execution_id (e ∷ es) =
    let rest = find_row organization_id execution_id es in
    if is_row organization_id execution_id e then some e else rest

unfoldable pub get : ℕ → ℕ → M (Option Execution)
get organization_id execution_id = gets λ db. find_row organization_id execution_id db.executions

abbrev pub or_404 : Option Execution → M Execution
or_404 none = raise "workflow_execution.not_found" 404
or_404 (some e) = pure e

unfoldable pub get_or_404 : ℕ → ℕ → M Execution
unfolding get
get_or_404 organization_id execution_id = do found ← get organization_id execution_id; or_404 found

-- The rows after `UPDATE ... WHERE organization_id = .. AND id = .. AND guard SET values`, and the
-- row that `RETURNING` gives.
unfoldable pub update_row :
    ℕ
    → ℕ
    → (Execution → Bool)
    → (Execution → Execution)
    → List Execution
    → List Execution × Option Execution
update_row organization_id execution_id guard values [] = ([], none)
update_row organization_id execution_id guard values (e ∷ es) =
    let (rest, updated) = update_row organization_id execution_id guard values es in
    if is_row organization_id execution_id e
    then (if guard e then (values e ∷ es, some (values e)) else (e ∷ es, none))
    else (e ∷ rest, updated)

unfoldable pub update_where :
    ℕ → ℕ → (Execution → Bool) → (Execution → Execution) → M (Option Execution)
update_where organization_id execution_id guard values db =
    let (rows, updated) = update_row organization_id execution_id guard values db.executions in
    pure updated (record db { executions = rows })

-- the WHERE clauses
abbrev pub is_startable : Execution → Bool
is_startable e = is_queued e.status && is_none e.cancel_requested_at

abbrev pub is_in_flight : Execution → Bool
is_in_flight e = is_running e.status && is_none e.cancel_requested_at

abbrev pub is_flagged : Execution → Bool
is_flagged e = is_running e.status && is_some e.cancel_requested_at

abbrev pub is_open : Execution → Bool
is_open e = is_pending e.status && is_none e.cancel_requested_at

-- `next_retry_at IS NOT NULL AND next_retry_at <= before`
abbrev pub due_by : ℕ → Option ℕ → Bool
due_by before none = false
due_by before (some t) = leb t before

abbrev pub is_due : ℕ → Execution → Bool
is_due before e = is_retrying e.status && due_by before e.next_retry_at

-- the SET clauses
abbrev pub start_values : ℕ → Execution → Execution
start_values now e = record e { status = running; attempts = e.attempts + 1; started_at = some now }

abbrev pub succeed_values : Fields → ℕ → Execution → Execution
succeed_values output finished_at e = record e {
  status = succeeded;
  output = some output;
  finished_at = some finished_at;
}

-- `if finished_at is not None: values["finished_at"] = finished_at`
abbrev pub keep_or : Option ℕ → Option ℕ → Option ℕ
keep_or old none = old
keep_or old (some t) = some t

abbrev pub fail_values : Fields → ExecutionStatus → Option ℕ → Option ℕ → Execution → Execution
fail_values error to_status next_retry_at finished_at e = record e {
  status = to_status;
  error = some error;
  next_retry_at = next_retry_at;
  finished_at = keep_or e.finished_at finished_at;
}

abbrev pub fail_queued_values : Fields → ℕ → Execution → Execution
fail_queued_values error finished_at e = record e {
  status = failed;
  error = some error;
  next_retry_at = none;
  finished_at = some finished_at;
}

abbrev pub cancel_after_run_values : ℕ → Execution → Execution
cancel_after_run_values finished_at e = record e {
  status = cancelled;
  finished_at = some finished_at;
}

abbrev pub cancel_pending_values : ℕ → Option ℕ → ℕ → Execution → Execution
cancel_pending_values cancel_requested_at cancelled_by finished_at e = record e {
  status = cancelled;
  cancel_requested_at = some cancel_requested_at;
  cancelled_by_user_id = cancelled_by;
  finished_at = some finished_at;
}

abbrev pub flag_values : ℕ → Option ℕ → Execution → Execution
flag_values cancel_requested_at cancelled_by e = record e {
  cancel_requested_at = some cancel_requested_at;
  cancelled_by_user_id = cancelled_by;
}

abbrev pub time_out_values : Fields → ℕ → Execution → Execution
time_out_values error finished_at e = record e {
  status = timed_out;
  error = some error;
  finished_at = some finished_at;
}

abbrev pub requeue_values : Execution → Execution
requeue_values e = record e {
  status = queued;
  next_retry_at = none;
  cancel_requested_at = none;
  cancelled_by_user_id = none;
}

abbrev pub requeue_due_values : Execution → Execution
requeue_due_values e = record e { status = queued; next_retry_at = none }

-- the guarded transitions; `now` in `mark_started` is the database's `now()`
abbrev pub mark_started : ℕ → ℕ → ℕ → M (Option Execution)
mark_started organization_id execution_id now =
    update_where organization_id execution_id is_startable (start_values now)

abbrev pub mark_succeeded : ℕ → ℕ → Fields → ℕ → M (Option Execution)
mark_succeeded organization_id execution_id output finished_at =
    update_where organization_id execution_id is_in_flight (succeed_values output finished_at)

abbrev pub mark_failed :
    ℕ → ℕ → Fields → ExecutionStatus → Option ℕ → Option ℕ → M (Option Execution)
mark_failed organization_id execution_id error to_status next_retry_at finished_at =
    update_where organization_id execution_id is_in_flight
      (fail_values error to_status next_retry_at finished_at)

abbrev pub mark_failed_if_queued : ℕ → ℕ → Fields → ℕ → M (Option Execution)
mark_failed_if_queued organization_id execution_id error finished_at =
    update_where organization_id execution_id (λ e. is_queued e.status)
      (fail_queued_values error finished_at)

abbrev pub mark_cancelled_after_run : ℕ → ℕ → ℕ → M (Option Execution)
mark_cancelled_after_run organization_id execution_id finished_at =
    update_where organization_id execution_id is_flagged (cancel_after_run_values finished_at)

abbrev pub mark_cancelled_if_pending : ℕ → ℕ → ℕ → Option ℕ → ℕ → M (Option Execution)
mark_cancelled_if_pending organization_id execution_id cancel_requested_at cancelled_by
      finished_at =
    update_where organization_id execution_id is_open
      (cancel_pending_values cancel_requested_at cancelled_by finished_at)

abbrev pub mark_cancel_requested : ℕ → ℕ → ℕ → Option ℕ → M (Option Execution)
mark_cancel_requested organization_id execution_id cancel_requested_at cancelled_by =
    update_where organization_id execution_id is_in_flight
      (flag_values cancel_requested_at cancelled_by)

abbrev pub mark_timed_out : ℕ → ℕ → Fields → ℕ → M (Option Execution)
mark_timed_out organization_id execution_id error finished_at =
    update_where organization_id execution_id is_in_flight (time_out_values error finished_at)

abbrev pub mark_requeued : ℕ → ℕ → M (Option Execution)
mark_requeued organization_id execution_id =
    update_where organization_id execution_id (λ e. is_retryable e.status) requeue_values

abbrev pub mark_requeued_due : ℕ → ℕ → ℕ → M (Option Execution)
mark_requeued_due organization_id execution_id due_before =
    update_where organization_id execution_id (is_due due_before) requeue_due_values
