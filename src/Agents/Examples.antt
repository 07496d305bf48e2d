-- ===== src/Agents/Examples.antt =====
-- A run that is claimed, flagged and stopped, and a second claim that comes too late.
use agency_os.Prelude.{All, true, ◌≡◌, refl, none, some, List, [], ◌∷◌}
use agency_os.Db.Tables.{end}
use agency_os.Agents.StateMachine.{queued, cancelled}
use agency_os.Agents.Columns.{is_consistent, execute-is_consistent}
use agency_os.Agents.Runs.{
  AgentRun, manual, Statement, Update, start, succeed, cancel_after_run, flag_cancel, execute,
  update_of, mark_started, mark_succeeded, mark_cancelled_after_run, mark_cancel_requested,
}

abbrev waiting : AgentRun
waiting = record {
  id = 7;
  organization_id = 1;
  agent_name = "research";
  status = queued;
  trigger = manual;
  workflow_id = none;
  input = end;
  output = none;
  error = none;
  duration_ms = none;
  cost = 0;
  started_at = none;
  finished_at = none;
  cancel_requested_at = none;
  cancelled_by_user_id = none;
  idempotency_key = none;
  trace_id = none;
}

abbrev on_seven : Update → Statement
on_seven u = record { organization_id = 1; run_id = 7; update = u }

abbrev race : List Statement
race =
    on_seven (start 10)
    ∷ on_seven (start 11)
    ∷ on_seven (flag_cancel 12 (some 3))
    ∷ on_seven (succeed end none 20)
    ∷ on_seven (cancel_after_run 20)
    ∷ []

raced :
    execute race (waiting ∷ [])
    ≡ (record waiting {
      status = cancelled;
      started_at = some 10;
      finished_at = some 20;
      cancel_requested_at = some 12;
      cancelled_by_user_id = some 3;
    })
      ∷ []
unfolding execute update_of mark_started mark_succeeded mark_cancelled_after_run
    mark_cancel_requested
raced = refl

execute-is_consistent_example : All (λ r. is_consistent r ≡ true) (execute race (waiting ∷ []))
execute-is_consistent_example = execute-is_consistent race (waiting ∷ []) (refl, tt)
