-- ===== src/Dispatch/Due.antt =====
-- schedule_dispatcher.py: the ticks that `previous_fire` gives the dispatcher, and a due tick.
use agency_os.Prelude.{
  ℕ, ◌*◌, ◌/◌, ◌≤◌, ◌≡◌, refl, false, none, ◌∷◌, String, Text, Option-cases, inl, inr, arith,
  length, select,
}
use agency_os.Cron.Parse.{fields_from}
use agency_os.Cron.Fire.{fires, previous_fire, previous_minute, minute_us}
use agency_os.Cron.Fire.Recent.{Says, previous_is_latest}
use agency_os.Db.Tables.{Db, Trigger, Workflow, Execution}
use agency_os.Db.Session.{Result, ok, and_then, pure}
use agency_os.Dispatch.Triggers.{is_reservable, reserve_last_fired}
use agency_os.Dispatch.Sweep.{
  dispatched, is_fired, settle, request_of, reserve_and_queue, dispatch_tick,
}
use agency_os.Execution.Outcomes.Queued.{IsAdmissible, queue_admits}
use agency_os.Execution.Service.Helpers.{Env, alone}
use agency_os.Execution.Service.Queueing.{Fresh, queue, new_execution}

-- The tick that `previous_fire` gives is never in the future, which is what `tick_once` asks of a
-- reservation.
pub previous_fire-past :
    (expression : Text) (now minute : ℕ)
    → previous_fire expression now ≡ fires minute
    → minute * minute_us ≤ now
unfolding previous_fire
previous_fire-past expression now minute h = elim (Option-cases (fields_from expression)) [
  | inl bad ↦ cc (rw bad at h)
  | inr (s, good) ↦
      let found : previous_minute s (now / minute_us) ≡ fires minute = rw good at h in
      let says : Says s (now / minute_us) (fires minute) =
        rw found at (previous_is_latest s (now / minute_us)) in
      omega (arith, says.0)
]

queued_branch :
    (r : Result Execution) (e : Execution) (db before : Db)
    → r ≡ ok e
    → settle before (and_then r (λ execution. pure dispatched) db) ≡ (ok dispatched, db)
queued_branch (ok e') e db before h = refl
queued_branch (Result.err x) e db before h = cc

module _ (env : Env) (fresh : ℕ → Fresh) (isoformat : ℕ → String) (now k : ℕ) (t : Trigger)
    (tick : ℕ) (w : Workflow) (db : Db) where
  -- A due tick whose reservation matches one row and whose request is admissible is dispatched: the
  -- execution that the request describes is put in front of the table.
  pub due_tick_dispatched :
      is_fired t.last_fired_at tick ≡ false
      → length (select (is_reservable t.id tick) db.triggers) ≡ 1
      → IsAdmissible env
          (fresh k)
          (request_of env alone fresh isoformat now t tick)
          t.organization_id
          w
          none
          false
          (reserve_last_fired t.id tick now db).1
      → let (r, db') = dispatch_tick env alone fresh isoformat now k t tick db in
        (r ≡ ok dispatched)
        × (db'.executions
            ≡ new_execution
                (request_of env alone fresh isoformat now t tick)
                t.organization_id
                none
                (fresh k)
              ∷ db.executions)
  unfolding dispatch_tick reserve_and_queue reserve_last_fired
  due_tick_dispatched due one a =
      let d = request_of env alone fresh isoformat now t tick in
      let db1 = (reserve_last_fired t.id tick now db).1 in
      let (r, db') = queue env (fresh k) d none false db1 in
      let e = new_execution d t.organization_id none (fresh k) in
      let admitted = queue_admits env (fresh k) d t.organization_id w none false db1 a in
      rw (due, one) (rw (queued_branch r e db' db admitted.0) (refl, admitted.1))
