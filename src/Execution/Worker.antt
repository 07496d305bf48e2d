-- ===== src/Execution/Worker.antt =====
-- backend/app/workers/execution_worker.py: the phases and `sweep`, over the execution service, with the
-- queue reads of repositories/workflow_execution.py. What an adapter answers is a parameter, and so is
-- what other sessions commit: `others` at each guarded UPDATE, `meanwhile` during a run. Every stored
-- mode has an adapter: the CHECK of the column admits no other.
use agency_os.Prelude.{
  ℕ, ◌+◌, ◌-◌, Bool, true, false, ◌&&◌, Option, none, some, List, [], ◌∷◌, map, ◌==◌, ltb, leb,
  select, take, contains, if◌then◌else◌,
}
use agency_os.Automation.{is_enabled}
use agency_os.Db.Rows.{first_row, order_by}
use agency_os.Db.Tables.{
  Db, Execution, ExecutionEventType, Workflow, is_queued, is_running, is_retrying, is_active,
  Fields, field, end, text,
}
use agency_os.Db.Session.{M, Result, ok, err, ◌>>=◌, ◌>>◌, pure, raise, gets, modify}
use agency_os.Execution.Repository.{due_by}
use agency_os.Execution.Service.Helpers.{Env, Others, timeline, count}
use agency_os.Execution.Service.Running.{start, complete, fail, fail_queued, timeout}
use agency_os.Execution.Service.Requeue.{requeue_due}

-- how `asyncio.wait_for(adapter.execute(...))` ends; an exception comes as its error payload
pub data AdapterResult : Type 0 where
  returned raised : Fields → AdapterResult
  exceeded : AdapterResult

pub record World : Type 0 where
  pub env : Env
  pub others : Others
  pub meanwhile : Execution → Db → Db
  pub run : Workflow → Execution → AdapterResult
  pub starts : Execution → ℕ
  pub ends : Execution → ℕ

-- `try: ... except AppError`, and the `except Exception` of a phase
abbrev caught : {A : Type 0} → Result A → Option A
caught (ok a) = some a
caught (err e) = none

unfoldable pub attempt : {A : Type 0} → M A → M (Option A)
attempt m db = let (r, db') = m db in (ok (caught r), db')

abbrev pub unavailable : Fields
unavailable =
    field "error" (text "workflow_unavailable")
      (field "message" (text "Workflow is not active or not found") end)

abbrev pub oldest_first : List Execution → List Execution
oldest_first es = order_by (λ a b. leb a.created_at b.created_at) es

unfoldable pub get_queued_for_org : ℕ → ℕ → List Execution → List Execution
get_queued_for_org organization_id limit es =
    take limit
      (oldest_first (select (λ e. e.organization_id == organization_id && is_queued e.status) es))

abbrev distinct : List ℕ → List ℕ
distinct [] = []
distinct (x ∷ xs) = let rest = distinct xs in if contains rest x then rest else x ∷ rest

-- `MIN(created_at)` of the rows of a group
abbrev earlier : Option ℕ → ℕ → Option ℕ
earlier none t = some t
earlier (some u) t = if ltb t u then some t else some u

abbrev pub waiting_since : ℕ → List Execution → Option ℕ
waiting_since organization_id [] = none
waiting_since organization_id (e ∷ es) =
    let rest = waiting_since organization_id es in
    if e.organization_id == organization_id then earlier rest e.created_at else rest

abbrev not_later : Option ℕ → Option ℕ → Bool
not_later none b = true
not_later (some a) none = false
not_later (some a) (some b) = leb a b

unfoldable pub get_queued_orgs : ℕ → List Execution → List ℕ
get_queued_orgs limit es =
    let queue : List Execution = select (λ e. is_queued e.status) es in
    take limit (
      order_by (λ a b. not_later (waiting_since a queue) (waiting_since b queue))
        (distinct (map (λ (e : Execution). e.organization_id) queue)))

unfoldable pub get_queued_for_retry : ℕ → List Execution → List Execution
get_queued_for_retry before es =
    order_by (λ a b. not_later a.next_retry_at b.next_retry_at)
      (select (λ e. is_retrying e.status && due_by before e.next_retry_at) es)

abbrev started_before : ℕ → Option ℕ → Bool
started_before cutoff none = false
started_before cutoff (some t) = ltb t cutoff

-- `now - timeout` is exact as long as the clock has passed the timeout
unfoldable pub get_stuck_running : ℕ → List Execution → List Execution
get_stuck_running cutoff es =
    select (λ e. is_running e.status && started_before cutoff e.started_at) es

module _ (world : World) where
  unfoldable pub settle_returned : Execution → Fields → M (Unit {0})
  settle_returned e output = do
    timeline world.env e ExecutionEventType.adapter_returned
    done ←
        attempt (complete world.env world.others (world.ends e) e.organization_id e.id output none)
    pure tt

  unfoldable pub settle_raised : Execution → Fields → M (Unit {0})
  settle_raised e error = do
    done ←
        attempt (fail world.env world.others (world.ends e) e.organization_id e.id error true none)
    pure tt

  unfoldable pub settle_exceeded : Execution → M (Unit {0})
  settle_exceeded e = do
    timeline world.env e ExecutionEventType.timeout_guard
    done ← attempt (timeout world.env world.others (world.ends e) e.organization_id e.id)
    pure tt

  unfoldable pub settle : Execution → AdapterResult → M (Unit {0})
  settle e (returned output) = settle_returned e output
  settle e (raised error) = settle_raised e error
  settle e exceeded = settle_exceeded e

  unfoldable pub wait_for_adapter : Execution → M (Unit {0})
  wait_for_adapter started = modify (world.meanwhile started)

  unfoldable pub dispatch : Workflow → Execution → Execution → M Bool
  dispatch workflow execution started = do
    timeline world.env started ExecutionEventType.adapter_dispatched
    wait_for_adapter started
    settle started (world.run workflow execution)
    pure true

  unfoldable pub run_claimed : Workflow → Execution → Option Execution → M Bool
  run_claimed workflow execution none = pure false
  run_claimed workflow execution (some started) = dispatch workflow execution started

  unfoldable pub refuse_unavailable : Execution → M Bool
  refuse_unavailable e = do
    done ←
        attempt
          (fail_queued world.env world.others (world.ends e) e.organization_id e.id unavailable)
    pure true

  unfoldable pub run_active : Workflow → Execution → M Bool
  run_active workflow e = do
    claimed ← attempt (start world.env world.others (world.starts e) e.organization_id e.id none)
    run_claimed workflow e claimed

  unfoldable pub run_in : Option Workflow → Execution → M Bool
  run_in none e = refuse_unavailable e
  run_in (some w) e = if is_active w.status then run_active w e else refuse_unavailable e

  -- the workflows are those that were read with the batch, by id
  unfoldable pub process_execution : List Workflow → Execution → M Bool
  process_execution workflows e = run_in (first_row (λ w. w.id == e.workflow_id) workflows) e

  abbrev add : Bool → ℕ → ℕ
  add processed n = if processed then n + 1 else n

  unfoldable pub count_processed : M Bool → M ℕ → M ℕ
  count_processed one rest = do processed ← one; n ← rest; pure (add processed n)

  unfoldable pub process_batch : List Workflow → List Execution → M ℕ
  process_batch workflows [] = pure 0
  process_batch workflows (e ∷ es) =
      count_processed (process_execution workflows e) (process_batch workflows es)

  unfoldable pub process_org : ℕ → ℕ → M ℕ
  process_org batch_size o = do
    executions ← gets (λ db. get_queued_for_org o batch_size db.executions)
    workflows ← gets (λ db. db.workflows)
    process_batch workflows executions

  unfoldable pub sum_of : M ℕ → M ℕ → M ℕ
  sum_of one rest = do n ← one; m ← rest; pure (n + m)

  unfoldable pub process_orgs : ℕ → List ℕ → M ℕ
  process_orgs batch_size [] = pure 0
  process_orgs batch_size (o ∷ orgs) =
      sum_of (process_org batch_size o) (process_orgs batch_size orgs)

  unfoldable pub process_queued : ℕ → ℕ → M ℕ
  process_queued orgs_per_sweep batch_size = do
    orgs ← gets (λ db. get_queued_orgs orgs_per_sweep db.executions)
    n ← process_orgs batch_size orgs
    count (λ m. record m { drained_total = m.drained_total + n })
    pure n

  abbrev add_some : Option Execution → ℕ → ℕ
  add_some none n = n
  add_some (some e) n = n + 1

  unfoldable pub count_some : M (Option Execution) → M ℕ → M ℕ
  count_some one rest = do updated ← one; n ← rest; pure (add_some updated n)

  unfoldable pub requeue_each : ℕ → List Execution → M ℕ
  requeue_each now [] = pure 0
  requeue_each now (e ∷ es) =
      count_some (requeue_due world.env world.others now e.organization_id e.id)
        (requeue_each now es)

  unfoldable pub process_retries : ℕ → M ℕ
  process_retries now = do
    due ← gets (λ db. get_queued_for_retry now db.executions)
    requeue_each now due

  unfoldable pub timeout_each : ℕ → List Execution → M ℕ
  timeout_each now [] = pure 0
  timeout_each now (e ∷ es) =
      count_some (attempt (timeout world.env world.others now e.organization_id e.id))
        (timeout_each now es)

  unfoldable pub timeout_stuck : ℕ → M ℕ
  timeout_stuck now = do
    stuck ← gets (λ db. get_stuck_running (now - world.env.timeout_seconds) db.executions)
    timeout_each now stuck

  -- retried, processed, timed out; `none` is a phase that raised
  unfoldable pub report : Option ℕ → Option ℕ → Option ℕ → M (ℕ × ℕ × ℕ)
  report (some a) (some b) (some c) = pure (a, b, c)
  report _ _ _ = raise "RuntimeError" 500

  abbrev or_zero : Option ℕ → ℕ
  or_zero none = 0
  or_zero (some n) = n

  unfoldable pub sweep_all : ℕ → ℕ → ℕ → M (ℕ × ℕ × ℕ)
  sweep_all now orgs_per_sweep batch_size = do
    retried ← attempt (process_retries now)
    processed ← attempt (process_queued orgs_per_sweep batch_size)
    timed_out ← attempt (timeout_stuck now)
    report retried processed timed_out

  unfoldable pub sweep_paused : ℕ → M (ℕ × ℕ × ℕ)
  sweep_paused now = do timed_out ← attempt (timeout_stuck now); pure (0, 0, or_zero timed_out)

  unfoldable pub sweep : ℕ → ℕ → ℕ → M (ℕ × ℕ × ℕ)
  sweep now orgs_per_sweep batch_size = do
    enabled ← gets is_enabled
    if enabled then sweep_all now orgs_per_sweep batch_size else sweep_paused now
