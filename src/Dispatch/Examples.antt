-- ===== src/Dispatch/Examples.antt =====
-- A sweep over two schedule triggers, and the theorems about sweeps at it.
use agency_os.Prelude.{
  ℕ, ◌+◌, ◌*◌, ◌≤◌, ◌≡◌, refl, true, false, none, some, List, [], ◌∷◌, length, codes, arith, String,
}
use agency_os.Prelude.Int.{pos}
use agency_os.Automation.{is_enabled, block_if_paused}
use agency_os.Db.Tables.{builtin, Db, Trigger, active, paused, WorkflowStatus, end}
use agency_os.Db.Session.{ok}
use agency_os.Cron.Parse.{
  fields_from, schedule_of, parse_field, parse_items, parse_item, parse_base, coerce_item,
  lookup_name, names_for, range,
}
use agency_os.Cron.Calendar.{month_of, day_of, weekday}
use agency_os.Cron.Fire.{previous_fire, previous_minute, matches_minute, day_matches, minute_us}
use agency_os.Dispatch.Triggers.{reserve_last_fired, list_enabled_schedules, order_triggers}
use agency_os.Dispatch.Sweep.{
  refused, scanned_only, Stats, dispatch_tick, dispatch_trigger, dispatch_fire, dispatch_due,
  dispatch_listed, dispatch_all, reserve_and_queue, request_of,
}
use agency_os.Dispatch.Ticks.{Reservation, wins, tick_once}
use agency_os.Dispatch.Counts.{counts_add_up, total}
use agency_os.Dispatch.Due.{due_tick_dispatched}
use agency_os.Dispatch.Sweep.{dispatched}
use agency_os.Execution.Service.Helpers.{Env, alone, audit, timeline, count}
use agency_os.Execution.Service.Queueing.{
  Fresh, queue, enqueue, new_execution, find_workflow, count_pending, violates,
}

abbrev env : Env
env = record {
  max_result_size_bytes = 100;
  max_pending_per_org = 2;
  timeout_seconds = 300;
  payload_size = λ p. 2;
  elapsed_ms = λ s f. pos 0;
  timeline_writable = true;
}

abbrev fresh : ℕ → Fresh
fresh k = record { id = 100 + k; trace_id = 200 + k; now = 5 }

abbrev iso : ℕ → String
iso t = "t"

-- every minute
abbrev minutely : Trigger
minutely = record {
  id = 31;
  organization_id = 1;
  workflow_id = 5;
  is_schedule = true;
  enabled = true;
  config = end;
  schedule_cron = some (codes "* * * * *");
  last_fired_at = some (3000 * 1440 * minute_us);
  created_at = 2;
}

-- 31 February
abbrev impossible : Trigger
impossible = record minutely {
  id = 32;
  schedule_cron = some (codes "0 0 31 2 *");
  last_fired_at = none;
}

abbrev with_triggers : WorkflowStatus → List Trigger → Db
with_triggers status triggers = record {
  executions = [];
  workflows =
      record { id = 5; organization_id = 1; status = status; execution_mode = builtin } ∷ [];
  triggers = triggers;
  settings = record { enabled = none; paused_by = none; paused_at = none; paused_reason = none };
  logs = [];
  events = [];
  metrics = record {
    queued_total = 0;
    drained_total = 0;
    retried_total = 0;
    failed_total = 0;
    timed_out_total = 0;
    cancelled_total = 0;
    automation_paused_total = 0;
    automation_resumed_total = 0;
    automation_status_reads = 0;
    durations = [];
  };
}

abbrev noon : ℕ
noon = (3000 * 1440 + 720) * minute_us

abbrev both : Db
both = with_triggers active (minutely ∷ impossible ∷ [])

abbrev swept : Stats
swept = record { scanned = 2; queued = 1; failed = 0; skipped = 1; conflicts = 0 }

sweep_both : (dispatch_due env alone fresh iso noon 100 both).0 ≡ ok swept
unfolding dispatch_due dispatch_listed dispatch_all dispatch_trigger dispatch_fire dispatch_tick
    reserve_and_queue reserve_last_fired list_enabled_schedules order_triggers request_of is_enabled
    queue enqueue new_execution find_workflow count_pending violates block_if_paused audit timeline
    count previous_fire previous_minute fields_from schedule_of parse_field parse_items parse_item
    parse_base coerce_item lookup_name names_for range month_of day_of weekday matches_minute
    day_matches
sweep_both = refl

-- A batch of one holds the trigger that never fires, at every sweep: the other is not reached.
starved :
    dispatch_due env alone fresh iso noon 1 both
    ≡ (ok (record (scanned_only 1) { skipped = 1 }), both)
unfolding dispatch_due dispatch_listed dispatch_all dispatch_trigger dispatch_fire dispatch_tick
    reserve_and_queue reserve_last_fired list_enabled_schedules order_triggers is_enabled
    previous_fire previous_minute fields_from schedule_of parse_field parse_items parse_item
    parse_base coerce_item lookup_name names_for range month_of day_of weekday matches_minute
    day_matches
starved = refl

counts_add_up_example :
    (total swept ≡ swept.scanned)
    × (length (dispatch_due env alone fresh iso noon 100 both).1.executions ≡ 0 + 1)
counts_add_up_example = counts_add_up env fresh iso noon 100 both swept sweep_both

abbrev rivals : List Reservation
rivals =
    record { trigger_id = 31; tick = noon; now = noon + 1 }
    ∷ record { trigger_id = 31; tick = noon; now = noon }
    ∷ []

tick_once_example : wins 31 noon rivals both ≤ 1
tick_once_example = tick_once 31 noon rivals both (omega arith, (omega arith, tt))

one_wins : wins 31 noon rivals both ≡ 1
unfolding wins reserve_last_fired
one_wins = refl

refused_tick :
    (dispatch_tick env alone fresh iso noon 0 minutely noon
      (with_triggers paused (minutely ∷ []))).0
    ≡ ok refused
unfolding dispatch_tick reserve_and_queue reserve_last_fired request_of queue find_workflow
    block_if_paused
refused_tick = refl

abbrev stopped : Db
stopped = record both {
  settings = record {
    enabled = some false;
    paused_by = none;
    paused_at = none;
    paused_reason = none;
  };
}

due_tick_dispatched_example :
    ((dispatch_tick env alone fresh iso noon 0 minutely noon both).0 ≡ ok dispatched)
    × ((dispatch_tick env alone fresh iso noon 0 minutely noon both).1.executions
        ≡ new_execution (request_of env alone fresh iso noon minutely noon) 1 none (fresh 0) ∷ [])
due_tick_dispatched_example =
    due_tick_dispatched env fresh iso noon 0 minutely noon
      (record { id = 5; organization_id = 1; status = active; execution_mode = builtin }) both refl
      refl
      (unfold is_enabled find_workflow count_pending violates new_execution request_of
          reserve_last_fired in
        record {
          automated = refl;
          organization = refl;
          workflow = refl;
          active = refl;
          room = refl;
          intact = refl;
        })
