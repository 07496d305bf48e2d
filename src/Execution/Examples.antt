-- ===== src/Execution/Examples.antt =====
-- A small queue, and the theorems about executions at it.
use agency_os.Prelude.{◌≡◌, refl, true, false, none, some, [], ◌∷◌, All, arith}
use agency_os.Prelude.Int.{pos}
use agency_os.Automation.{is_enabled, block_if_paused}
use agency_os.Db.Tables.{
  builtin, Db, Execution, ExecutionStatus, queued, running, succeeded, constant, exponential, end,
  Workflow, active,
}
use agency_os.Db.Session.{ok, err}
use agency_os.Execution.Repository.{
  find_row, start_values, flag_values, cancel_after_run_values, succeed_values,
}
use agency_os.Execution.Statements.{Runs}
use agency_os.Execution.Consistency.{IsConsistent}
use agency_os.Execution.Calls
use agency_os.Execution.Calls.{History, Method, Turns, replay}
use agency_os.Execution.Service.Helpers.{Env, alone, audit, timeline, count}
use agency_os.Execution.Service.Queueing.{
  WorkflowExecutionCreate, Fresh, queue, enqueue, new_execution, find_workflow, count_pending,
  violates,
}
use agency_os.Execution.Service.Running.{start, complete, fail, timeout}
use agency_os.Execution.Service.Cancel.{cancel}
use agency_os.Execution.Histories.{replay-Runs, succeeded_is_final, replay-IsConsistent}
use agency_os.Execution.Outcomes.Finish.{complete_lem, fail_lem}
use agency_os.Execution.Outcomes.Claim.{start_claims, claim_is_exclusive}
use agency_os.Execution.Outcomes.Refusals.{invalid_state_error}
use agency_os.Execution.Outcomes.Cancelling.{cancel_is_honoured}
use agency_os.Execution.Outcomes.Queued.{IsAdmissible, queue_admits, queue_idempotent}

abbrev env : Env
env = record {
  max_result_size_bytes = 100;
  max_pending_per_org = 2;
  timeout_seconds = 300;
  payload_size = λ p. 2;
  elapsed_ms = λ s f. pos 0;
  timeline_writable = true;
}

abbrev waiting : Execution
waiting = record {
  id = 11;
  organization_id = 1;
  workflow_id = 5;
  trigger_id = none;
  status = queued;
  input = end;
  output = none;
  error = none;
  created_at = 10;
  started_at = none;
  finished_at = none;
  attempts = 0;
  max_attempts = 3;
  retry_delay_seconds = 60;
  retry_backoff = exponential;
  next_retry_at = none;
  requested_by_user_id = none;
  trace_id = some 99;
  cancel_requested_at = none;
  cancelled_by_user_id = none;
  idempotency_key = none;
}

abbrev busy : Execution
busy = record waiting { status = running; attempts = 1; started_at = some 20 }

abbrev finished : Execution
finished = record busy { status = succeeded; output = some end; finished_at = some 30 }

-- a database with one execution and its workflow
abbrev with_row : Execution → Db
with_row e = record {
  executions = e ∷ [];
  workflows =
      record { id = 5; organization_id = 1; status = active; execution_mode = builtin } ∷ [];
  triggers = [];
  settings = record { enabled = none; paused_by = none; paused_at = none; paused_reason = none };
  logs = [];
  events = [];
  metrics = record {
    queued_total = 0;
    drained_total = 0;
    retried_total = 0;
    failed_total = 0;
    timed_out_total = 0;
    cancelled_total = 0;
    automation_paused_total = 0;
    automation_resumed_total = 0;
    automation_status_reads = 0;
    durations = [];
  };
}

-- one worker starts the execution while another is between its read and its UPDATE
abbrev history : History
history =
    History.then
      (Turns.turns
        (History.then (Turns.turns History.done History.done History.done)
          (Calls.call 21 1 11 (Method.start none)) History.done)
        History.done History.done)
      (Calls.call 22 1 11 (Method.start none))
      (History.then (Turns.turns History.done History.done History.done)
        (Calls.call 30 1 11 (Method.complete end none)) History.done)

replay-Runs_example : Runs (waiting ∷ []) (replay env history (with_row waiting)).executions
replay-Runs_example = replay-Runs env history (with_row waiting)

succeeded_is_final_example :
    find_row 1 11 (replay env history (with_row finished)).executions ≡ some finished
succeeded_is_final_example =
    succeeded_is_final env history (with_row finished) 1 11 finished (unfold find_row in refl) refl

replay-IsConsistent_example : All IsConsistent (replay env history (with_row waiting)).executions
replay-IsConsistent_example = replay-IsConsistent env history (with_row waiting) (ground arith)

complete_lem_example :
    (complete env alone 30 1 11 end none (with_row busy)).0 ≡ ok (succeed_values end 30 busy)
complete_lem_example =
    (complete_lem env 30 1 11 (with_row busy) busy (unfold find_row in refl) refl end none
      (omega arith)).0

fail_lem_example :
    find_row 1 11 (fail env alone 30 1 11 end true none (with_row busy)).1.executions
    ≡ some (record busy {
      status = ExecutionStatus.retrying;
      error = some end;
      next_retry_at = some 90;
    })
fail_lem_example =
    (fail_lem env 30 1 11 (with_row busy) busy (unfold find_row in refl) refl end true none
      (omega arith)).1

start_claims_example :
    (start env alone 20 1 11 none (with_row waiting)).0 ≡ ok (start_values 20 waiting)
start_claims_example =
    (start_claims env 20 1 11 none alone (with_row waiting) waiting waiting
        (unfold find_row in refl) refl (unfold find_row in refl)).0
      refl

claim_is_exclusive_example :
    start env (λ n d. (start env alone 20 1 11 none d).1) 21 1 11 none (with_row waiting)
    ≡ (err invalid_state_error, (start env alone 20 1 11 none (with_row waiting)).1)
claim_is_exclusive_example =
    (claim_is_exclusive env 20 21 1 11 none none (with_row waiting) waiting
      (unfold find_row in refl) refl).1

cancel_is_honoured_example :
    (timeout env alone 30 1 11 (cancel env alone 25 1 11 (some 4) (with_row busy)).1).0
    ≡ ok (cancel_after_run_values 30 (flag_values 25 (some 4) busy))
cancel_is_honoured_example =
    (cancel_is_honoured env 25 30 1 11 (some 4) (with_row busy) busy (unfold find_row in refl) refl
      end true none (omega arith)).2

abbrev request : WorkflowExecutionCreate
request = record {
  organization_id = some 1;
  workflow_id = 5;
  trigger_id = none;
  input = end;
  max_attempts = 3;
  retry_delay_seconds = 60;
  retry_backoff = constant;
  trace_id = none;
  idempotency_key = some "daily";
}

abbrev draw : Fresh
draw = record { id = 12; trace_id = 13; now = 14 }

abbrev the_workflow : Workflow
the_workflow = record { id = 5; organization_id = 1; status = active; execution_mode = builtin }

request-IsAdmissible : IsAdmissible env draw request 1 the_workflow none false (with_row waiting)
unfolding is_enabled find_workflow count_pending violates new_execution
request-IsAdmissible = record {
  automated = refl;
  organization = refl;
  workflow = refl;
  active = refl;
  room = refl;
  intact = refl;
}

queue_admits_example :
    (queue env draw request none false (with_row waiting)).0
    ≡ ok (new_execution request 1 none draw)
queue_admits_example =
    (queue_admits env draw request 1 the_workflow none false (with_row waiting)
      request-IsAdmissible).0

abbrev after_request : Db
after_request = (queue env draw request none false (with_row waiting)).1

abbrev redraw : Fresh
redraw = record { id = 22; trace_id = 23; now = 24 }

queue_idempotent_example : queue env redraw request (some 4) true after_request ≡ (
  err (record { code = "execution.duplicate_idempotency_key"; status_code = 409 }),
  after_request,
)
unfolding is_enabled find_workflow count_pending violates new_execution queue block_if_paused
    enqueue audit timeline count
queue_idempotent_example =
    queue_idempotent env draw redraw request request 1 the_workflow the_workflow none (some 4) false
      true (with_row waiting) "daily" request-IsAdmissible refl refl refl refl refl refl refl
