-- ===== src/Execution/Statements.antt =====
-- repositories/workflow_execution.py: the guarded UPDATEs and the insert as data, with the rows after a
-- sequence of them, and what each of them may do to a row.
use agency_os.Prelude.{ℕ, Bool, Option, none, some, List, [], ◌∷◌, if◌then◌else◌, ◌≡◌}
use agency_os.Db.Tables.{Execution, Fields, is_queued, is_retryable}
use agency_os.Execution.Service.Queueing.{collides}
use agency_os.Execution.Service.Running.{failure_status}
use agency_os.Execution.Lifecycle.{RowStep}
use agency_os.Execution.Repository.{
  find_row, update_row, is_startable, is_in_flight, is_flagged, is_open, is_due, start_values,
  succeed_values, fail_values, fail_queued_values, cancel_after_run_values, cancel_pending_values,
  flag_values, time_out_values, requeue_values, requeue_due_values,
}

-- an UPDATE, with what its method takes besides the key of the row
pub data Update : Type 0 where
  starting : ℕ → Update
  succeeding : Fields → ℕ → Update
  failing : Fields → Bool → ℕ → ℕ → Update
  failing_queued : Fields → ℕ → Update
  cancelling_after_run : ℕ → Update
  cancelling_pending : ℕ → Option ℕ → ℕ → Update
  flagging : ℕ → Option ℕ → Update
  timing_out : Fields → ℕ → Update
  requeuing : Update
  requeuing_due : ℕ → Update

-- its WHERE clause besides the key
unfoldable pub guard_of : Update → Execution → Bool
guard_of (starting now) = is_startable
guard_of (succeeding output t) = is_in_flight
guard_of (failing error retry due t) = is_in_flight
guard_of (failing_queued error t) = λ e. is_queued e.status
guard_of (cancelling_after_run t) = is_flagged
guard_of (cancelling_pending t by f) = is_open
guard_of (flagging t by) = is_in_flight
guard_of (timing_out error t) = is_in_flight
guard_of requeuing = λ e. is_retryable e.status
guard_of (requeuing_due before) = is_due before

-- its SET clause
unfoldable pub values_of : Update → Execution → Execution
values_of (starting now) = start_values now
values_of (succeeding output t) = succeed_values output t
values_of (failing error retry due t) =
    fail_values error (failure_status retry) (if retry then some due else none)
      (if retry then none else some t)
values_of (failing_queued error t) = fail_queued_values error t
values_of (cancelling_after_run t) = cancel_after_run_values t
values_of (cancelling_pending t by f) = cancel_pending_values t by f
values_of (flagging t by) = flag_values t by
values_of (timing_out error t) = time_out_values error t
values_of requeuing = requeue_values
values_of (requeuing_due before) = requeue_due_values

-- a statement of any session: an UPDATE of one row, or the insert of `queue`
pub data Statement : Type 0 where
  updating : ℕ → ℕ → Update → Statement
  inserting : Execution → Statement

unfoldable pub run : Statement → List Execution → List Execution
run (updating organization_id execution_id u) xs =
    (update_row organization_id execution_id (guard_of u) (values_of u) xs).0
run (inserting e) xs = if collides e xs then xs else e ∷ xs

-- the table after the statements of all sessions, in the order in which the database runs them
unfoldable pub execute : List Statement → List Execution → List Execution
execute [] xs = xs
execute (s ∷ ss) xs = execute ss (run s xs)

-- One statement leaves a row as it is, or takes it along one edge of the lifecycle.
pub data Advances (a : Execution) : Execution → Type 0 where
  kept : Advances a a
  moved : {b : Execution} → RowStep a b → Advances a b

pub record RowsAdvance (xs ys : List Execution) : Type 0 where
  pub row :
      (o i : ℕ) (e : Execution)
      → find_row o i xs ≡ some e
      → (e' : Execution) × (find_row o i ys ≡ some e') × Advances e e'

-- Each of the statements, run on the table that those before it have left, advances every row by one
-- edge at most.
abbrev pub Stepwise : List Statement → List Execution → Type 0
Stepwise [] xs = Unit {0}
Stepwise (s ∷ ss) xs = RowsAdvance xs (run s xs) × Stepwise ss (run s xs)

-- the table went from `xs` to `ys` by statements that advance every row by one edge at most
pub record Runs (xs ys : List Execution) : Type 0 where
  pub statements : List Statement
  pub result : ys ≡ execute statements xs
  pub stepwise : Stepwise statements xs
