-- ===== src/Execution/WorkerExamples.antt =====
-- A worker over one waiting execution, and the theorems about the worker at it.
use agency_os.Prelude.{◌≡◌, refl, true, none, some, [], ◌∷◌}
use agency_os.Prelude.Int.{pos}
use agency_os.Db.Tables.{builtin, Db, Execution, queued, exponential, end, Workflow, active}
use agency_os.Db.Session.{ok}
use agency_os.Execution.Repository.{find_row, start_values, succeed_values}
use agency_os.Execution.Statements.{Runs}
use agency_os.Execution.Evolution.Rows.{stepwise, Runs-refl}
use agency_os.Execution.Service.Helpers.{Env}
use agency_os.Execution.Worker.{World, AdapterResult, returned, process_execution, sweep}
use agency_os.Execution.Sweeping.{IsTame, sweep-Runs}
use agency_os.Execution.Landing.{undisturbed, process_execution_lem}

abbrev env : Env
env = record {
  max_result_size_bytes = 100;
  max_pending_per_org = 2;
  timeout_seconds = 300;
  payload_size = λ p. 2;
  elapsed_ms = λ s f. pos 0;
  timeline_writable = true;
}

abbrev waiting : Execution
waiting = record {
  id = 11;
  organization_id = 1;
  workflow_id = 5;
  trigger_id = none;
  status = queued;
  input = end;
  output = none;
  error = none;
  created_at = 10;
  started_at = none;
  finished_at = none;
  attempts = 0;
  max_attempts = 3;
  retry_delay_seconds = 60;
  retry_backoff = exponential;
  next_retry_at = none;
  requested_by_user_id = none;
  trace_id = some 99;
  cancel_requested_at = none;
  cancelled_by_user_id = none;
  idempotency_key = none;
}

abbrev flow : Workflow
flow = record { id = 5; organization_id = 1; status = active; execution_mode = builtin }

abbrev db : Db
db = record {
  executions = waiting ∷ [];
  workflows = flow ∷ [];
  triggers = [];
  settings = record { enabled = none; paused_by = none; paused_at = none; paused_reason = none };
  logs = [];
  events = [];
  metrics = record {
    queued_total = 0;
    drained_total = 0;
    retried_total = 0;
    failed_total = 0;
    timed_out_total = 0;
    cancelled_total = 0;
    automation_paused_total = 0;
    automation_resumed_total = 0;
    automation_status_reads = 0;
    durations = [];
  };
}

abbrev answers : Workflow → Execution → AdapterResult
answers w e = returned end

abbrev world : World
world = undisturbed env answers (λ e. 20) (λ e. 30)

world-IsTame : IsTame stepwise world
unfolding agency_os.Execution.Worker.wait_for_adapter
world-IsTame = record {
  respectful = λ n. record { at = λ d. Runs-refl d.executions };
  during = λ e. record { at = λ d. Runs-refl d.executions };
}

sweep-Runs_example : Runs (waiting ∷ []) (sweep world 40 10 10 db).1.executions
sweep-Runs_example = sweep-Runs world 40 10 10 db world-IsTame

process_execution_lem_example :
    ((process_execution world (flow ∷ []) waiting db).0 ≡ ok true)
    × (find_row 1 11 (process_execution world (flow ∷ []) waiting db).1.executions
        ≡ some (succeed_values end 30 (start_values 20 waiting)))
process_execution_lem_example =
    process_execution_lem env answers (λ e. 20) (λ e. 30) (flow ∷ []) flow waiting db
      (unfold find_row in refl) refl refl refl
