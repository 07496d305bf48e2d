-- ===== src/Agents/Runs.antt =====
-- backend/app/repositories/agent_run.py: the guarded transitions of `agent_runs`, each a single
-- `UPDATE ... WHERE ... RETURNING`, and models/agent_run.py. An UPDATE sets every row that its WHERE
-- matches; the id is the primary key, so that is one row at most.
use agency_os.Prelude.{
  ℕ, String, Bool, ◌&&◌, Option, none, some, List, [], ◌∷◌, map, ◌==◌, is_none, is_some,
  if◌then◌else◌,
}
use agency_os.Db.Tables.{Fields}
use agency_os.Agents.StateMachine.{
  AgentRunStatus, queued, running, succeeded, failed, cancelled, same_status,
}

pub data AgentRunTrigger : Type 0 where
  manual schedule workflow event ai_run : AgentRunTrigger

-- `cost` is in millionths, as its column is Numeric(18, 6)
pub record AgentRun : Type 0 where
  pub id : ℕ
  pub organization_id : ℕ
  pub agent_name : String
  pub status : AgentRunStatus
  pub trigger : AgentRunTrigger
  pub workflow_id : Option ℕ
  pub input : Fields
  pub output : Option Fields
  pub error : Option String
  pub duration_ms : Option ℕ
  pub cost : ℕ
  pub started_at : Option ℕ
  pub finished_at : Option ℕ
  pub cancel_requested_at : Option ℕ
  pub cancelled_by_user_id : Option ℕ
  pub idempotency_key : Option String
  pub trace_id : Option ℕ

-- the WHERE clauses beside the keys
abbrev pub is_queued : AgentRun → Bool
is_queued r = same_status r.status queued

abbrev pub is_startable : AgentRun → Bool
is_startable r = is_queued r && is_none r.cancel_requested_at

abbrev pub is_in_flight : AgentRun → Bool
is_in_flight r = same_status r.status running && is_none r.cancel_requested_at

abbrev pub is_flagged : AgentRun → Bool
is_flagged r = same_status r.status running && is_some r.cancel_requested_at

-- `if cost is not None: values["cost"] = cost`
abbrev pub given_or : ℕ → Option ℕ → ℕ
given_or old none = old
given_or old (some new) = new

-- one row under `UPDATE ... WHERE guard SET values`
abbrev pub update_row : (AgentRun → Bool) → (AgentRun → AgentRun) → AgentRun → AgentRun
update_row guard values r = if guard r then values r else r

-- the SET clauses
abbrev pub start_values : ℕ → AgentRun → AgentRun
start_values now r = record r { status = running; started_at = some now }

abbrev pub succeed_values : Fields → Option ℕ → ℕ → AgentRun → AgentRun
succeed_values output cost finished_at r = record r {
  status = succeeded;
  output = some output;
  cost = given_or r.cost cost;
  finished_at = some finished_at;
}

abbrev pub fail_values : String → ℕ → AgentRun → AgentRun
fail_values error finished_at r = record r {
  status = failed;
  error = some error;
  finished_at = some finished_at;
}

abbrev pub stop_values : ℕ → AgentRun → AgentRun
stop_values finished_at r = record r { status = cancelled; finished_at = some finished_at }

abbrev pub withdraw_values : ℕ → Option ℕ → ℕ → AgentRun → AgentRun
withdraw_values cancel_requested_at cancelled_by finished_at r = record r {
  status = cancelled;
  cancel_requested_at = some cancel_requested_at;
  cancelled_by_user_id = cancelled_by;
  finished_at = some finished_at;
}

abbrev pub flag_values : ℕ → Option ℕ → AgentRun → AgentRun
flag_values cancel_requested_at cancelled_by r = record r {
  cancel_requested_at = some cancel_requested_at;
  cancelled_by_user_id = cancelled_by;
}

module _ (organization_id run_id : ℕ) where
  -- the key of the WHERE, and the rest of it
  abbrev pub keyed : (AgentRun → Bool) → AgentRun → Bool
  keyed guard r = (r.organization_id == organization_id && r.id == run_id) && guard r

  unfoldable pub mark_started : ℕ → AgentRun → AgentRun
  mark_started now = update_row (keyed is_startable) (start_values now)

  unfoldable pub mark_succeeded : Fields → Option ℕ → ℕ → AgentRun → AgentRun
  mark_succeeded output cost finished_at =
      update_row (keyed is_in_flight) (succeed_values output cost finished_at)

  unfoldable pub mark_failed : String → ℕ → AgentRun → AgentRun
  mark_failed error finished_at = update_row (keyed is_in_flight) (fail_values error finished_at)

  unfoldable pub mark_failed_if_queued : String → ℕ → AgentRun → AgentRun
  mark_failed_if_queued error finished_at =
      update_row (keyed is_queued) (fail_values error finished_at)

  unfoldable pub mark_cancelled_after_run : ℕ → AgentRun → AgentRun
  mark_cancelled_after_run finished_at = update_row (keyed is_flagged) (stop_values finished_at)

  unfoldable pub mark_cancelled_if_pending : ℕ → Option ℕ → ℕ → AgentRun → AgentRun
  mark_cancelled_if_pending cancel_requested_at cancelled_by finished_at =
      update_row (keyed is_startable) (withdraw_values cancel_requested_at cancelled_by finished_at)

  unfoldable pub mark_cancel_requested : ℕ → Option ℕ → AgentRun → AgentRun
  mark_cancel_requested cancel_requested_at cancelled_by =
      update_row (keyed is_in_flight) (flag_values cancel_requested_at cancelled_by)

-- an UPDATE with the arguments that its method takes
pub data Update : Type 0 where
  start : ℕ → Update
  succeed : Fields → Option ℕ → ℕ → Update
  fail : String → ℕ → Update
  fail_queued : String → ℕ → Update
  cancel_after_run : ℕ → Update
  cancel_pending : ℕ → Option ℕ → ℕ → Update
  flag_cancel : ℕ → Option ℕ → Update

-- the keys of an UPDATE and what it does
pub record Statement : Type 0 where
  pub organization_id : ℕ
  pub run_id : ℕ
  pub update : Update

unfoldable pub update_of : ℕ → ℕ → Update → AgentRun → AgentRun
update_of o i (start now) = mark_started o i now
update_of o i (succeed output cost at) = mark_succeeded o i output cost at
update_of o i (fail error at) = mark_failed o i error at
update_of o i (fail_queued error at) = mark_failed_if_queued o i error at
update_of o i (cancel_after_run at) = mark_cancelled_after_run o i at
update_of o i (cancel_pending requested_at by at) = mark_cancelled_if_pending o i requested_at by at
update_of o i (flag_cancel requested_at by) = mark_cancel_requested o i requested_at by

-- the table after the statements of all sessions, in the order in which the database runs them
unfoldable pub execute : List Statement → List AgentRun → List AgentRun
execute [] runs = runs
execute (s ∷ ss) runs = execute ss (map (update_of s.organization_id s.run_id s.update) runs)
