-- ===== src/Execution/Sweeping.antt =====
-- workers/execution_worker.py: what a sweep may do to the executions table, with other sessions at
-- work at every guarded UPDATE and during every run of an adapter.
use agency_os.Prelude.{ℕ, ◌+◌, true, false, Option, none, some, List, [], ◌∷◌, ◌==◌}
use agency_os.Db.Tables.{Db, Execution, Workflow, Fields, ExecutionEventType, is_active}
use agency_os.Db.Session.{M}
use agency_os.Db.Rows.{first_row}
use agency_os.Automation.{is_enabled}
use agency_os.Execution.Statements.{Runs}
use agency_os.Execution.Guarantee.{
  Contract, KeptByUpdates, Guarantees, Guarantees-bind, Guarantees-pure, Guarantees-raise,
  Guarantees-if,
}
use agency_os.Execution.Evolution.Rows.{stepwise}
use agency_os.Execution.Evolution.Updates.{stepwise_kept}
use agency_os.Execution.Methods.{
  Respectful, timeline-Guarantees, count-Guarantees, gets-Guarantees, start-Guarantees,
  complete-Guarantees, fail-Guarantees, fail_queued-Guarantees, timeout-Guarantees,
  requeue_due-Guarantees,
}
use agency_os.Execution.Worker.{
  World, AdapterResult, returned, raised, exceeded, attempt, settle, settle_returned, settle_raised,
  settle_exceeded, wait_for_adapter, dispatch, count_processed, process_org, sum_of, count_some,
  sweep_all, sweep_paused, run_claimed, refuse_unavailable, run_active, run_in, process_execution,
  process_batch, process_orgs, process_queued, requeue_each, process_retries, timeout_each,
  timeout_stuck, report, sweep, unavailable,
}

module _ (c : Contract) where
  attempt-Guarantees : {A : Type 0} (m : M A) → Guarantees c m → Guarantees c (attempt m)
  unfolding attempt
  attempt-Guarantees m g = record { at = g.at }

  -- what the other sessions do keeps the contract
  pub record IsTame (world : World) : Type 0 where
    pub respectful : Respectful c world.others
    pub during : (e : Execution) → Guarantees c (wait_for_adapter world e)

module _ (c : Contract) (kept : KeptByUpdates c) (world : World) (tame : IsTame c world) where
  settle_returned-Guarantees :
      (e : Execution) (output : Fields) → Guarantees c (settle_returned world e output)
  unfolding settle_returned
  settle_returned-Guarantees e output =
      Guarantees-bind c _ _ (timeline-Guarantees c world.env e ExecutionEventType.adapter_returned)
        λ u.
          Guarantees-bind c _ _
            (attempt-Guarantees c _ (
              complete-Guarantees c kept world.env world.others tame.respectful (world.ends e)
                e.organization_id e.id output none))
            λ done. Guarantees-pure c tt

  settle_raised-Guarantees :
      (e : Execution) (error : Fields) → Guarantees c (settle_raised world e error)
  unfolding settle_raised
  settle_raised-Guarantees e error =
      Guarantees-bind c _ _
        (attempt-Guarantees c _ (
          fail-Guarantees c kept world.env world.others tame.respectful (world.ends e)
            e.organization_id e.id error true none))
        λ done. Guarantees-pure c tt

  settle_exceeded-Guarantees : (e : Execution) → Guarantees c (settle_exceeded world e)
  unfolding settle_exceeded
  settle_exceeded-Guarantees e =
      Guarantees-bind c _ _ (timeline-Guarantees c world.env e ExecutionEventType.timeout_guard)
        λ u.
          Guarantees-bind c _ _
            (attempt-Guarantees c _ (
              timeout-Guarantees c kept world.env world.others tame.respectful (world.ends e)
                e.organization_id e.id))
            λ done. Guarantees-pure c tt

  settle-Guarantees : (e : Execution) (r : AdapterResult) → Guarantees c (settle world e r)
  unfolding settle
  settle-Guarantees e (returned output) = settle_returned-Guarantees e output
  settle-Guarantees e (raised error) = settle_raised-Guarantees e error
  settle-Guarantees e exceeded = settle_exceeded-Guarantees e

  dispatch-Guarantees :
      (w : Workflow) (e started : Execution) → Guarantees c (dispatch world w e started)
  unfolding dispatch
  dispatch-Guarantees w e started =
      Guarantees-bind c _ _
        (timeline-Guarantees c world.env started ExecutionEventType.adapter_dispatched)
        λ u. Guarantees-bind c _ _ (tame.during started) λ v.
          Guarantees-bind c _ _ (settle-Guarantees started (world.run w e))
            λ x. Guarantees-pure c true

  run_claimed-Guarantees :
      (w : Workflow) (e : Execution) (o : Option Execution) → Guarantees c (run_claimed world w e o)
  unfolding run_claimed
  run_claimed-Guarantees w e none = Guarantees-pure c false
  run_claimed-Guarantees w e (some started) = dispatch-Guarantees w e started

  refuse_unavailable-Guarantees : (e : Execution) → Guarantees c (refuse_unavailable world e)
  unfolding refuse_unavailable
  refuse_unavailable-Guarantees e =
      Guarantees-bind c _ _
        (attempt-Guarantees c _ (
          fail_queued-Guarantees c kept world.env world.others tame.respectful (world.ends e)
            e.organization_id e.id unavailable))
        λ done. Guarantees-pure c true

  run_active-Guarantees : (w : Workflow) (e : Execution) → Guarantees c (run_active world w e)
  unfolding run_active
  run_active-Guarantees w e =
      Guarantees-bind c _ _
        (attempt-Guarantees c _ (
          start-Guarantees c kept world.env world.others tame.respectful (world.starts e)
            e.organization_id e.id none))
        (run_claimed-Guarantees w e)

  run_in-Guarantees : (o : Option Workflow) (e : Execution) → Guarantees c (run_in world o e)
  unfolding run_in
  run_in-Guarantees none e = refuse_unavailable-Guarantees e
  run_in-Guarantees (some w) e =
      Guarantees-if c (is_active w.status) _ _ (run_active-Guarantees w e)
        (refuse_unavailable-Guarantees e)

  process_batch-Guarantees :
      (ws : List Workflow) (es : List Execution) → Guarantees c (process_batch world ws es)
  unfolding process_batch process_execution count_processed
  process_batch-Guarantees ws [] = Guarantees-pure c 0
  process_batch-Guarantees ws (e ∷ es) =
      Guarantees-bind c _ _ (run_in-Guarantees (first_row (λ w. w.id == e.workflow_id) ws) e)
        λ one. Guarantees-bind c _ _ (process_batch-Guarantees ws es) λ n. Guarantees-pure c _

  process_orgs-Guarantees : (n : ℕ) (os : List ℕ) → Guarantees c (process_orgs world n os)
  unfolding process_orgs process_org sum_of
  process_orgs-Guarantees n [] = Guarantees-pure c 0
  process_orgs-Guarantees n (o ∷ os) =
      Guarantees-bind c (process_org world n o) _
        (Guarantees-bind c _ _ (gets-Guarantees c _) λ es.
          Guarantees-bind c _ _ (gets-Guarantees c (λ db. db.workflows))
            λ ws. process_batch-Guarantees ws es)
        λ one. Guarantees-bind c _ _ (process_orgs-Guarantees n os) λ rest. Guarantees-pure c _

  process_queued-Guarantees : (k n : ℕ) → Guarantees c (process_queued world k n)
  unfolding process_queued
  process_queued-Guarantees k n = Guarantees-bind c _ _ (gets-Guarantees c _) λ orgs.
      Guarantees-bind c _ _ (process_orgs-Guarantees n orgs) λ m.
        Guarantees-bind c _ _
          (count-Guarantees c (λ t. record t { drained_total = t.drained_total + m }))
          λ u. Guarantees-pure c m

  requeue_each-Guarantees :
      (now : ℕ) (es : List Execution) → Guarantees c (requeue_each world now es)
  unfolding requeue_each count_some
  requeue_each-Guarantees now [] = Guarantees-pure c 0
  requeue_each-Guarantees now (e ∷ es) =
      Guarantees-bind c _ _
        (requeue_due-Guarantees c kept world.env world.others tame.respectful now e.organization_id
          e.id)
        λ one. Guarantees-bind c _ _ (requeue_each-Guarantees now es) λ n. Guarantees-pure c _

  timeout_each-Guarantees :
      (now : ℕ) (es : List Execution) → Guarantees c (timeout_each world now es)
  unfolding timeout_each count_some
  timeout_each-Guarantees now [] = Guarantees-pure c 0
  timeout_each-Guarantees now (e ∷ es) =
      Guarantees-bind c _ _
        (attempt-Guarantees c _ (
          timeout-Guarantees c kept world.env world.others tame.respectful now e.organization_id
            e.id))
        λ one. Guarantees-bind c _ _ (timeout_each-Guarantees now es) λ n. Guarantees-pure c _

  report-Guarantees : (a b d : Option ℕ) → Guarantees c (report world a b d)
  unfolding report
  report-Guarantees (some a) (some b) (some d) = Guarantees-pure c (a, b, d)
  report-Guarantees none b d = Guarantees-raise c "RuntimeError" 500
  report-Guarantees (some a) none d = Guarantees-raise c "RuntimeError" 500
  report-Guarantees (some a) (some b) none = Guarantees-raise c "RuntimeError" 500

  stuck-Guarantees : (now : ℕ) → Guarantees c (attempt (timeout_stuck world now))
  unfolding timeout_stuck
  stuck-Guarantees now =
      attempt-Guarantees c _
        (Guarantees-bind c _ _ (gets-Guarantees c _) λ es. timeout_each-Guarantees now es)

  sweep-Guarantees : (now k n : ℕ) → Guarantees c (sweep world now k n)
  unfolding sweep sweep_all sweep_paused process_retries
  sweep-Guarantees now k n = Guarantees-bind c _ _ (gets-Guarantees c is_enabled) λ enabled.
      Guarantees-if c enabled (sweep_all world now k n) (sweep_paused world now)
        (Guarantees-bind c (attempt (process_retries world now)) _
          (attempt-Guarantees c (process_retries world now)
            (Guarantees-bind c _ _ (gets-Guarantees c _) λ es. requeue_each-Guarantees now es))
          λ a.
            Guarantees-bind c _ _ (attempt-Guarantees c _ (process_queued-Guarantees k n))
              λ b. Guarantees-bind c _ _ (stuck-Guarantees now) λ d. report-Guarantees a b d)
        (Guarantees-bind c _ _ (stuck-Guarantees now) λ d. Guarantees-pure c _)

-- Whatever the adapters answer, and whatever other sessions do by statements of one edge at most, a
-- sweep of the worker, of all phases or of the housekeeping alone, changes the executions table only by
-- a sequence of the repository's UPDATEs and of inserts, of which each one, run on the table that those
-- before it have left, either leaves a row as it is or takes it along exactly one edge of the lifecycle,
-- with its request fields unchanged and an attempt counted by a claim alone.
pub sweep-Runs :
    (world : World) (now k n : ℕ) (db : Db)
    → IsTame stepwise world
    → Runs db.executions (sweep world now k n db).1.executions
sweep-Runs world now k n db tame =
    (sweep-Guarantees stepwise stepwise_kept world tame now k n).at db
