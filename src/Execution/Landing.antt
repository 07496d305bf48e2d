-- ===== src/Execution/Landing.antt =====
-- workers/execution_worker.py: where the worker leaves the execution that it takes from the queue, by
-- what the adapter answers, with no other session in between.
use agency_os.Prelude.{
  ℕ, ◌≡◌, refl, ◌∙◌, Bool, true, none, some, List, ◌==◌, ltb, arith, Bool-cases, inl, inr,
  if◌then◌else◌,
}
use agency_os.Db.Rows.{first_row}
use agency_os.Db.Tables.{Db, Execution, Workflow, Fields, ExecutionEventType, is_active}
use agency_os.Db.Session.{ok}
use agency_os.Execution.Repository.{
  find_row, is_startable, is_in_flight, start_values, succeed_values, time_out_values,
}
use agency_os.Execution.Service.Helpers.{Env, alone, timeline, assert_payload_size}
use agency_os.Execution.Service.Running.{start, complete, fail, timeout, timeout_error}
use agency_os.Execution.Outcomes.Claim.{start_startable}
use agency_os.Execution.Outcomes.Finish.{after_failure, complete_lem, fail_lem, timeout_lem}
use agency_os.Execution.Worker.{
  World, AdapterResult, returned, raised, exceeded, attempt, settle, settle_returned, settle_raised,
  settle_exceeded, wait_for_adapter, dispatch, run_claimed, run_active, run_in, process_execution,
}

-- one worker, and no one else
abbrev pub undisturbed :
    Env → (Workflow → Execution → AdapterResult) → (Execution → ℕ) → (Execution → ℕ) → World
undisturbed env run starts ends = record {
  env = env;
  others = alone;
  meanwhile = λ e db. db;
  run = run;
  starts = starts;
  ends = ends;
}

abbrev pub too_large : Env → Fields → Bool
too_large env payload = ltb env.max_result_size_bytes (env.payload_size payload)

-- the row of a started execution after each answer; a payload over the limit leaves it RUNNING
abbrev pub landed : Env → ℕ → AdapterResult → Execution → Execution
landed env now (returned output) s = if too_large env output then s else succeed_values output now s
landed env now (raised error) s = if too_large env error then s else after_failure now error true s
landed env now exceeded s = time_out_values timeout_error now s

module _ (env : Env) (now o i : ℕ) (db : Db) (s : Execution)
    (found : find_row o i db.executions ≡ some s) (runs : is_in_flight s ≡ true) where
  complete_large :
      (output : Fields)
      → too_large env output ≡ true
      → (complete env alone now o i output none db).1 ≡ db
  unfolding complete assert_payload_size
  complete_large output large = rw large refl

  fail_large :
      (error : Fields)
      → too_large env error ≡ true
      → (fail env alone now o i error true none db).1 ≡ db
  unfolding fail assert_payload_size
  fail_large error large = rw large refl

  complete_stores :
      (output : Fields)
      → find_row o i (complete env alone now o i output none db).1.executions
        ≡ some (landed env now (returned output) s)
  complete_stores output = elim (Bool-cases (too_large env output)) [
    | inl large ↦ rw (large, complete_large output large) found
    | inr small ↦
        let (r, stored, n) =
          complete_lem env now o i db s found (ground arith) output none (ground arith) in
        rw small (stored ∙ ground arith)
  ]

  fail_stores :
      (error : Fields)
      → find_row o i (fail env alone now o i error true none db).1.executions
        ≡ some (landed env now (raised error) s)
  fail_stores error = elim (Bool-cases (too_large env error)) [
    | inl large ↦ rw (large, fail_large error large) found
    | inr small ↦
        let (r, stored, n) =
          fail_lem env now o i db s found (ground arith) error true none (ground arith) in
        rw small stored
  ]

  timeout_stores :
      find_row o i (timeout env alone now o i db).1.executions ≡ some (landed env now exceeded s)
  timeout_stores =
      let (r, stored, n, m) = timeout_lem env now o i db s found (ground arith) in
      stored ∙ ground arith

module _ (env : Env) (run : Workflow → Execution → AdapterResult)
    (starts ends : Execution → ℕ) where
  abbrev world : World
  world = undisturbed env run starts ends

  -- the row of a run that is under way, after the answer
  settle_lem :
      (s : Execution) (r : AdapterResult) (db : Db)
      → find_row s.organization_id s.id db.executions ≡ some s
      → is_in_flight s ≡ true
      → let (done, db') = settle world s r db in
        (done ≡ ok tt)
        × (find_row s.organization_id s.id db'.executions ≡ some (landed env (ends s) r s))
  unfolding settle settle_returned settle_raised settle_exceeded attempt timeline
  settle_lem s (returned output) db found runs =
      (refl, complete_stores env (ends s) s.organization_id s.id _ s found runs output)
  settle_lem s (raised error) db found runs =
      (refl, fail_stores env (ends s) s.organization_id s.id db s found runs error)
  settle_lem s exceeded db found runs =
      (refl, timeout_stores env (ends s) s.organization_id s.id _ s found runs)

  -- The worker takes a queued, unflagged execution of an active workflow,
  -- counts it, and leaves its row: SUCCEEDED with the output that the adapter returned; after an error
  -- RETRYING, due after the backoff delay, or FAILED when no attempts are left; TIMED_OUT when the
  -- adapter exceeds its time. An output or error over the size limit is dropped, and the row stays
  -- RUNNING.
  pub process_execution_lem :
      (workflows : List Workflow) (w : Workflow) (e : Execution) (db : Db)
      → find_row e.organization_id e.id db.executions ≡ some e
      → is_startable e ≡ true
      → first_row (λ v. v.id == e.workflow_id) workflows ≡ some w
      → is_active w.status ≡ true
      → let (r, db') = process_execution world workflows e db in
        let s = start_values (starts e) e in
        (r ≡ ok true)
        × (find_row e.organization_id e.id db'.executions ≡ some (landed env (ends s) (run w e) s))
  unfolding process_execution run_in run_active run_claimed dispatch attempt wait_for_adapter
      timeline
  process_execution_lem workflows w e db found fresh in_batch active =
      let (won, stored) =
        start_startable env (starts e) e.organization_id e.id none db e found fresh in
      let s : Execution = start_values (starts e) e in
      let db1 : Db = (start env alone (starts e) e.organization_id e.id none db).1 in
      let db2 : Db = (timeline env s ExecutionEventType.adapter_dispatched db1).1 in
      let (done, left) = settle_lem s (run w e) db2 stored (ground arith) in
      rw (in_batch, active, won, done) (refl, left)
