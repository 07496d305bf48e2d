-- ===== src/Execution/Evolution/Updates.antt =====
-- services/workflow_execution_service.py: the statements that its methods run.
use agency_os.Prelude.{ℕ, ◌≡◌, false, Option, arith, Bool-cases, inl, inr}
use agency_os.Db.Tables.{Execution}
use agency_os.Execution.Repository.{update_where}
use agency_os.Execution.Statements.{
  Update, starting, succeeding, failing, failing_queued, cancelling_after_run, cancelling_pending,
  flagging, timing_out, requeuing, requeuing_due, guard_of, values_of, updating, inserting, run,
  Runs,
}
use agency_os.Execution.Guarantee.{KeptByUpdates, Guarantees}
use agency_os.Execution.Evolution.Rows.{Runs-refl, Runs-one, stepwise}
use agency_os.Execution.Service.Helpers.{Env, audit, timeline, count}
use agency_os.Execution.Service.Queueing.{violates, collides, enqueue}

update-Runs :
    (o i : ℕ) (u : Update) → Guarantees stepwise (update_where o i (guard_of u) (values_of u))
unfolding update_where run
update-Runs o i u = record { at = λ db. Runs-one (updating o i u) db.executions }

enqueue-Runs : (env : Env) (e : Execution) (by : Option ℕ) → Guarantees stepwise (enqueue env e by)
unfolding enqueue audit timeline count run
enqueue-Runs env e by = record {
  at = λ db. elim (Bool-cases (violates e db)) [
    | inl broken ↦ rw broken (Runs-refl db.executions)
    | inr fine ↦
        let free : collides e db.executions ≡ false = ground arith in
        let runs : Runs db.executions (run (inserting e) db.executions) =
          Runs-one (inserting e) db.executions in
        rw fine (rw free at runs)
  ];
}

-- Every guarded UPDATE and the insert is one statement.
pub stepwise_kept : KeptByUpdates stepwise
unfolding guard_of values_of
stepwise_kept = record {
  started = λ o i now. update-Runs o i (starting now);
  succeeded = λ o i output t. update-Runs o i (succeeding output t);
  failed = λ o i error retry due t. update-Runs o i (failing error retry due t);
  failed_if_queued = λ o i error t. update-Runs o i (failing_queued error t);
  cancelled_after_run = λ o i t. update-Runs o i (cancelling_after_run t);
  cancelled_if_pending = λ o i t by f. update-Runs o i (cancelling_pending t by f);
  cancel_requested = λ o i t by. update-Runs o i (flagging t by);
  timed_out = λ o i error t. update-Runs o i (timing_out error t);
  requeued = λ o i. update-Runs o i requeuing;
  requeued_due = λ o i before. update-Runs o i (requeuing_due before);
  enqueued = λ env d o by fresh. enqueue-Runs env _ by;
}
