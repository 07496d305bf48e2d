-- ===== src/Execution/Histories.antt =====
-- What holds of an execution over every interleaved history of calls.
use agency_os.Prelude.{ℕ, zero, suc, ◌≤◌, ◌≡◌, some, All}
use agency_os.Db.Tables.{Db, Execution, succeeded}
use agency_os.Execution.Repository.{find_row}
use agency_os.Execution.Calls.{Method, Call, History, Turns, perform, replay, interleaved, pick}
use agency_os.Execution.Lifecycle.{
  Reaches, SameRequest, Reaches-SameRequest, Reaches-attempts, Reaches-succeeded,
}
use agency_os.Execution.Guarantee.{Contract, KeptByUpdates}
use agency_os.Execution.Statements.{Runs}
use agency_os.Execution.Evolution.Rows.{stepwise, Runs-RowsEvolve}
use agency_os.Execution.Evolution.Updates.{stepwise_kept}
use agency_os.Execution.Consistency.{IsConsistent, consistency, consistency_kept}
use agency_os.Execution.Service.Helpers.{Env, Others}
use agency_os.Execution.Methods.{
  Respectful, queue-Guarantees, start-Guarantees, complete-Guarantees, fail-Guarantees,
  fail_queued-Guarantees, timeout-Guarantees, retry-Guarantees, requeue_due-Guarantees,
  cancel-Guarantees,
}

module _ (c : Contract) (kept : KeptByUpdates c) where
  -- Any one call, with others that keep the contract in between, keeps the contract.
  pub perform-Rel :
      (env : Env) (others : Others) (k : Call) (db : Db)
      → Respectful c others
      → c.Rel db.executions (perform env others k db).executions
  unfolding perform
  perform-Rel env others (Call.queue fresh d by bypass) db r =
      (queue-Guarantees c kept env fresh d by bypass).at db
  perform-Rel env others (Call.call now o i (Method.start a)) db r =
      (start-Guarantees c kept env others r now o i a).at db
  perform-Rel env others (Call.call now o i (Method.complete p a)) db r =
      (complete-Guarantees c kept env others r now o i p a).at db
  perform-Rel env others (Call.call now o i (Method.fail p b a)) db r =
      (fail-Guarantees c kept env others r now o i p b a).at db
  perform-Rel env others (Call.call now o i (Method.fail_queued p)) db r =
      (fail_queued-Guarantees c kept env others r now o i p).at db
  perform-Rel env others (Call.call now o i Method.timeout) db r =
      (timeout-Guarantees c kept env others r now o i).at db
  perform-Rel env others (Call.call now o i (Method.retry a)) db r =
      (retry-Guarantees c kept env others r now o i a).at db
  perform-Rel env others (Call.call now o i Method.requeue_due) db r =
      (requeue_due-Guarantees c kept env others r now o i).at db
  perform-Rel env others (Call.call now o i (Method.cancel by)) db r =
      (cancel-Guarantees c kept env others r now o i by).at db

  pick-Respectful :
      (first second third : Db → Db)
      → ((db : Db) → c.Rel db.executions (first db).executions)
      → ((db : Db) → c.Rel db.executions (second db).executions)
      → ((db : Db) → c.Rel db.executions (third db).executions)
      → Respectful c (pick first second third)
  pick-Respectful first second third a b d zero = record { at = a }
  pick-Respectful first second third a b d (suc zero) = record { at = b }
  pick-Respectful first second third a b d (suc (suc n)) = record { at = d }

  mutual
    unfolding replay

    replay_keeps :
        (env : Env) (h : History) (db : Db) → c.Rel db.executions (replay env h db).executions
    replay_keeps env History.done db = c.rel_refl db.executions
    replay_keeps env (History.then t k rest) db =
        let db' = perform env (interleaved env t) k db in
        c.rel_trans db.executions db'.executions (replay env rest db').executions
          (perform-Rel env (interleaved env t) k db (interleaved-Respectful env t))
          (replay_keeps env rest db')

    interleaved-Respectful : (env : Env) (t : Turns) → Respectful c (interleaved env t)
    interleaved-Respectful env (Turns.turns x y z) =
        pick-Respectful (replay env x) (replay env y) (replay env z) (replay_keeps env x)
          (replay_keeps env y) (replay_keeps env z)

-- Any interleaved history of service calls changes the executions table only by a sequence of the
-- repository's UPDATEs and of inserts, of which each one, run on the table that those before it have
-- left, keeps every row and either leaves it as it is or takes it along exactly one edge
-- of the lifecycle, with its request fields unchanged and an attempt counted by a claim alone.
pub replay-Runs :
    (env : Env) (h : History) (db : Db) → Runs db.executions (replay env h db).executions
replay-Runs env h db = replay_keeps stepwise stepwise_kept env h db

module _ (env : Env) (h : History) (db : Db) (o i : ℕ) (e : Execution) where
  -- Over any interleaved history of service calls, an execution that was in the table is still
  -- there, and has got to its new state along the edges of the lifecycle, with its request fields
  -- unchanged and attempts counted by claims only.
  pub replay-Reaches :
      find_row o i db.executions ≡ some e
      → (e' : Execution) × (find_row o i (replay env h db).executions ≡ some e') × Reaches e e'
  replay-Reaches f = (Runs-RowsEvolve _ _ (replay-Runs env h db)).row o i e f

  -- Attempts never go down.
  pub replay-attempts :
      find_row o i db.executions ≡ some e
      → (e' : Execution) × (find_row o i (replay env h db).executions ≡ some e')
        × (e.attempts ≤ e'.attempts)
        × SameRequest e e'
  replay-attempts f =
      let (e', f', r) = replay-Reaches f in (e', f', Reaches-attempts r, Reaches-SameRequest r)

  -- A succeeded execution is never changed again, by any interleaved history of service calls.
  pub succeeded_is_final :
      find_row o i db.executions ≡ some e
      → e.status ≡ succeeded
      → find_row o i (replay env h db).executions ≡ some e
  succeeded_is_final f s = let (e', f', r) = replay-Reaches f in rw (Reaches-succeeded r s) at f'

-- If every execution is consistent, every execution is consistent after any interleaved history of
-- service calls: a running one has a start time and an attempt, a retrying one has a due time and no
-- cancel flag, a queued one has neither, a cancelled one has its flag, and a finished one has its
-- finish time and its output or error.
pub replay-IsConsistent :
    (env : Env) (h : History) (db : Db)
    → All IsConsistent db.executions
    → All IsConsistent (replay env h db).executions
replay-IsConsistent env h db = replay_keeps consistency consistency_kept env h db
