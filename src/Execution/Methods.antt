-- ===== src/Execution/Methods.antt =====
-- workflow_execution_service.py: its methods under a contract that the guarded UPDATEs keep.
use agency_os.Prelude.{ℕ, String, Bool, true, false, Option, none, some}
use agency_os.Prelude.Int.{ℤ}
use agency_os.Db.Tables.{
  Db, Execution, ExecutionStatus, ExecutionEventType, ActivityEventType, Metrics, Fields, Workflow,
}
use agency_os.Db.Session.{M, gets, refuse_if}
use agency_os.Automation.{block_if_paused}
use agency_os.Execution.Repository.{get, get_or_404, or_404}
use agency_os.Execution.Guarantee.{Contract, KeptByUpdates, Guarantees, guarantee_rules}
use agency_os.Execution.Service.Helpers.{
  Env, Others, yield_to, assert_payload_size, record_duration, audit, timeline, count, or_else,
  or_409,
}
use agency_os.Execution.Service.Running.{
  start, complete, fail, fail_flagged, fail_unflagged, fail_queued, timeout, cancel_after_run,
  note_cancelled, note_completed, note_failed, note_timed_out, note_timeout_cancelled,
}
use agency_os.Execution.Service.Queueing.{
  WorkflowExecutionCreate, Fresh, queue, organization_or_400, workflow_or_404,
}
use agency_os.Execution.Service.Requeue.{retry, requeue_due, note_requeued}
use agency_os.Execution.Service.Cancel.{cancel, cancel_live, request, or_not_found, note_cancel}

module _ (c : Contract) where
  pub gets-Guarantees : {A : Type 0} (f : Db → A) → Guarantees c (gets f)
  gets-Guarantees f = record { at = λ db. c.rel_refl db.executions }

  pub refuse_if-Guarantees :
      (b : Bool) (code : String) (status : ℕ) → Guarantees c (refuse_if b code status)
  refuse_if-Guarantees true code status = search guarantee_rules
  refuse_if-Guarantees false code status = search guarantee_rules

  pub assert_payload_size-Guarantees :
      (env : Env) (p : Fields) → Guarantees c (assert_payload_size env p)
  unfolding assert_payload_size
  assert_payload_size-Guarantees env p = refuse_if-Guarantees _ _ _

  pub record_duration-Guarantees :
      (s : ExecutionStatus) (d : Option ℤ) → Guarantees c (record_duration s d)
  unfolding record_duration
  record_duration-Guarantees s d = record { at = λ db. c.rel_refl db.executions }

  pub audit-Guarantees :
      (e : Execution) (i : Option ℕ) (t : ActivityEventType) (a : Option ℕ) (d : Option ℤ)
      → Guarantees c (audit e i t a d)
  unfolding audit
  audit-Guarantees e i t a d = record { at = λ db. c.rel_refl db.executions }

  pub timeline-Guarantees :
      (env : Env) (e : Execution) (t : ExecutionEventType) → Guarantees c (timeline env e t)
  unfolding timeline
  timeline-Guarantees env e t = record { at = λ db. c.rel_refl db.executions }

  pub count-Guarantees : (f : Metrics → Metrics) → Guarantees c (count f)
  unfolding count
  count-Guarantees f = record { at = λ db. c.rel_refl db.executions }

  pub or_else-Guarantees :
      (o : Option Execution) (m : M (Option Execution))
      → Guarantees c m
      → Guarantees c (or_else o m)
  or_else-Guarantees none m g = g
  or_else-Guarantees (some e) m g = search guarantee_rules

  pub or_409-Guarantees : (o : Option Execution) → Guarantees c (or_409 o)
  or_409-Guarantees none = search guarantee_rules
  or_409-Guarantees (some e) = search guarantee_rules

  or_404-Guarantees : (o : Option Execution) → Guarantees c (or_404 o)
  or_404-Guarantees none = search guarantee_rules
  or_404-Guarantees (some e) = search guarantee_rules

  pub or_not_found-Guarantees : (o : Option Execution) → Guarantees c (or_not_found o)
  or_not_found-Guarantees none = search guarantee_rules
  or_not_found-Guarantees (some e) = search guarantee_rules

  pub get-Guarantees : (o i : ℕ) → Guarantees c (get o i)
  unfolding get
  get-Guarantees o i = gets-Guarantees _

  pub get_or_404-Guarantees : (o i : ℕ) → Guarantees c (get_or_404 o i)
  unfolding get_or_404
  get_or_404-Guarantees o i = search (guarantee_rules, gets-Guarantees, or_404-Guarantees)

  pub block_if_paused-Guarantees : (code : String) → Guarantees c (block_if_paused code)
  unfolding block_if_paused
  block_if_paused-Guarantees code = search (guarantee_rules, gets-Guarantees, refuse_if-Guarantees)

  organization_or_400-Guarantees : (o : Option ℕ) → Guarantees c (organization_or_400 o)
  organization_or_400-Guarantees none = search guarantee_rules
  organization_or_400-Guarantees (some o) = search guarantee_rules

  workflow_or_404-Guarantees : (w : Option Workflow) → Guarantees c (workflow_or_404 w)
  workflow_or_404-Guarantees none = search guarantee_rules
  workflow_or_404-Guarantees (some w) = search guarantee_rules

  -- The other sessions keep the contract too.
  abbrev pub Respectful : Others → Type 0
  Respectful others = (n : ℕ) → Guarantees c (yield_to others n)

pub ruleset helper_guarantees = (
  guarantee_rules, refuse_if-Guarantees, assert_payload_size-Guarantees, record_duration-Guarantees,
  audit-Guarantees, timeline-Guarantees, count-Guarantees, or_else-Guarantees, or_409-Guarantees,
  or_not_found-Guarantees, get-Guarantees, get_or_404-Guarantees, block_if_paused-Guarantees,
)

module _ (c : Contract) (kept : KeptByUpdates c) (env : Env) (others : Others)
    (respectful : Respectful c others) (now o i : ℕ) where
  pub start-Guarantees : (actor : Option ℕ) → Guarantees c (start env others now o i actor)
  unfolding start
  start-Guarantees actor = search (helper_guarantees, kept.started) depth 12

  pub cancel_after_run-Guarantees : Guarantees c (cancel_after_run env others now o i)
  unfolding cancel_after_run
  cancel_after_run-Guarantees = search (helper_guarantees, kept.cancelled_after_run) depth 12

  note_cancelled-Guarantees : (e : Execution) → Guarantees c (note_cancelled env others now o i e)
  unfolding note_cancelled
  note_cancelled-Guarantees e = search helper_guarantees depth 12

  note_completed-Guarantees :
      (e : Execution) (a : Option ℕ) → Guarantees c (note_completed env others now o i e a)
  unfolding note_completed
  note_completed-Guarantees e a = search helper_guarantees depth 12

  note_failed-Guarantees :
      (e : Execution) (s : ExecutionStatus) (a : Option ℕ)
      → Guarantees c (note_failed env others now o i e s a)
  unfolding note_failed
  note_failed-Guarantees e s a = search helper_guarantees depth 12

  note_timed_out-Guarantees : (e : Execution) → Guarantees c (note_timed_out env others now o i e)
  unfolding note_timed_out
  note_timed_out-Guarantees e = search helper_guarantees depth 12

  note_timeout_cancelled-Guarantees :
      (e : Execution) → Guarantees c (note_timeout_cancelled env others now o i e)
  unfolding note_timeout_cancelled
  note_timeout_cancelled-Guarantees e = search helper_guarantees depth 12

  ruleset note_guarantees = (
    helper_guarantees, cancel_after_run-Guarantees, note_cancelled-Guarantees,
    note_completed-Guarantees, note_failed-Guarantees, note_timed_out-Guarantees,
    note_timeout_cancelled-Guarantees,
  )

  pub complete-Guarantees :
      (output : Fields) (actor : Option ℕ) → Guarantees c (complete env others now o i output actor)
  unfolding complete
  complete-Guarantees output actor = search (note_guarantees, kept.succeeded) depth 14

  fail_flagged-Guarantees : Guarantees c (fail_flagged env others now o i)
  unfolding fail_flagged
  fail_flagged-Guarantees = search (note_guarantees, kept.cancelled_after_run) depth 14

  fail_unflagged-Guarantees :
      (error : Fields) (retrying : Bool) (actor : Option ℕ) (e : Execution)
      → Guarantees c (fail_unflagged env others now o i error retrying actor e)
  unfolding fail_unflagged
  fail_unflagged-Guarantees error retrying actor e = search (note_guarantees, kept.failed) depth 14

  pub fail-Guarantees :
      (error : Fields) (schedule_retry : Bool) (actor : Option ℕ)
      → Guarantees c (fail env others now o i error schedule_retry actor)
  unfolding fail
  fail-Guarantees error schedule_retry actor =
      search (note_guarantees, fail_flagged-Guarantees, fail_unflagged-Guarantees) depth 14

  pub fail_queued-Guarantees :
      (error : Fields) → Guarantees c (fail_queued env others now o i error)
  unfolding fail_queued
  fail_queued-Guarantees error = search (note_guarantees, kept.failed_if_queued) depth 14

  pub timeout-Guarantees : Guarantees c (timeout env others now o i)
  unfolding timeout
  timeout-Guarantees = search (note_guarantees, kept.timed_out) depth 14

  pub retry-Guarantees : (actor : Option ℕ) → Guarantees c (retry env others now o i actor)
  unfolding retry
  retry-Guarantees actor = search (helper_guarantees, kept.requeued) depth 14

  note_requeued-Guarantees :
      (e : Option Execution) → Guarantees c (note_requeued env others now o i e)
  unfolding note_requeued
  note_requeued-Guarantees none = search helper_guarantees depth 14
  note_requeued-Guarantees (some e) = search helper_guarantees depth 14

  pub requeue_due-Guarantees : Guarantees c (requeue_due env others now o i)
  unfolding requeue_due
  requeue_due-Guarantees =
      search (helper_guarantees, note_requeued-Guarantees, kept.requeued_due) depth 14

  request-Guarantees : (by : Option ℕ) (b : Bool) → Guarantees c (request env others now o i by b)
  unfolding request
  request-Guarantees by true =
      search (helper_guarantees, kept.cancelled_if_pending, kept.cancel_requested) depth 14
  request-Guarantees by false = search (helper_guarantees, kept.cancel_requested) depth 14

  note_cancel-Guarantees :
      (by : Option ℕ) (e : Execution) → Guarantees c (note_cancel env others now o i by e)
  unfolding note_cancel
  note_cancel-Guarantees by e = search helper_guarantees depth 14

  cancel_live-Guarantees :
      (by : Option ℕ) (e : Execution) → Guarantees c (cancel_live env others now o i by e)
  unfolding cancel_live
  cancel_live-Guarantees by e =
      search (helper_guarantees, request-Guarantees, note_cancel-Guarantees) depth 14

  pub cancel-Guarantees : (by : Option ℕ) → Guarantees c (cancel env others now o i by)
  unfolding cancel
  cancel-Guarantees by = search (helper_guarantees, cancel_live-Guarantees) depth 14

pub queue-Guarantees :
    (c : Contract) (kept : KeptByUpdates c) (env : Env) (fresh : Fresh)
    (d : WorkflowExecutionCreate) (by : Option ℕ) (bypass : Bool)
    → Guarantees c (queue env fresh d by bypass)
unfolding queue
queue-Guarantees c kept env fresh d by bypass =
    search
      (
        guarantee_rules, gets-Guarantees, refuse_if-Guarantees, block_if_paused-Guarantees,
        organization_or_400-Guarantees, workflow_or_404-Guarantees, kept.enqueued,
      )
      depth 16
