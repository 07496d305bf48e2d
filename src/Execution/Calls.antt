-- ===== src/Execution/Calls.antt =====
-- The calls that change executions, as values: what API handlers and workers ask of
-- workflow_execution_service.py, one after the other or interleaved.
use agency_os.Prelude.{ℕ, zero, suc, Bool, Option}
use agency_os.Db.Tables.{Db, Fields}
use agency_os.Execution.Service.Helpers.{Env, Others}
use agency_os.Execution.Service.Queueing.{WorkflowExecutionCreate, Fresh}
use agency_os.Execution.Service.Queueing
use agency_os.Execution.Service.Running
use agency_os.Execution.Service.Requeue
use agency_os.Execution.Service.Cancel

-- the method and its arguments but the clock, the organization and the execution
pub data Method : Type 0 where
  start : Option ℕ → Method
  complete : Fields → Option ℕ → Method
  fail : Fields → Bool → Option ℕ → Method
  fail_queued : Fields → Method
  timeout : Method
  retry : Option ℕ → Method
  requeue_due : Method
  cancel : Option ℕ → Method

pub data Call : Type 0 where
  queue : Fresh → WorkflowExecutionCreate → Option ℕ → Bool → Call
  call : (now organization_id execution_id : ℕ) → Method → Call

-- the database after the call
unfoldable pub perform : Env → Others → Call → Db → Db
perform env others (queue fresh d by bypass) db = (Queueing.queue env fresh d by bypass db).1
perform env others (call now o i (start actor)) db = (Running.start env others now o i actor db).1
perform env others (call now o i (complete output actor)) db =
    (Running.complete env others now o i output actor db).1
perform env others (call now o i (fail error schedule_retry actor)) db =
    (Running.fail env others now o i error schedule_retry actor db).1
perform env others (call now o i (fail_queued error)) db =
    (Running.fail_queued env others now o i error db).1
perform env others (call now o i timeout) db = (Running.timeout env others now o i db).1
perform env others (call now o i (retry actor)) db = (Requeue.retry env others now o i actor db).1
perform env others (call now o i requeue_due) db = (Requeue.requeue_due env others now o i db).1
perform env others (call now o i (cancel by)) db = (Cancel.cancel env others now o i by db).1

-- A history: calls one after the other, during each of which other histories take their turn.
mutual
  pub data History : Type 0 where
    done : History
    then : Turns → Call → History → History

  -- what the other sessions do at the first, the second and the third guarded UPDATE of a call
  pub data Turns : Type 0 where
    turns : History → History → History → Turns

abbrev pub pick : (Db → Db) → (Db → Db) → (Db → Db) → Others
pick first second third n db = elim n [
  | zero ↦ first db
  | suc m ↦ elim m [ zero ↦ second db | suc _ ↦ third db ]
]

unfoldable mutual
  pub replay : Env → History → Db → Db
  replay env done db = db
  replay env (then t c rest) db = replay env rest (perform env (interleaved env t) c db)

  pub interleaved : Env → Turns → Others
  interleaved env (turns a b c) = pick (replay env a) (replay env b) (replay env c)
