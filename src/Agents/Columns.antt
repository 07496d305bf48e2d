-- ===== src/Agents/Columns.antt =====
-- repositories/agent_run.py: the columns that go with each status.
use agency_os.Prelude.{
  ℕ, ◌≡◌, Bool, true, not, ◌&&◌, List, [], ◌∷◌, map, is_some, Bool-cases, inl, inr, arith, All,
}
use agency_os.Agents.StateMachine.{AgentRunStatus, queued, running, succeeded, failed, cancelled}
use agency_os.Agents.Runs.{
  AgentRun, Update, start, succeed, fail, fail_queued, cancel_after_run, cancel_pending,
  flag_cancel, Statement, update_of, execute, update_row, is_startable, keyed, start_values,
  succeed_values, fail_values, stop_values, withdraw_values, flag_values, is_in_flight, is_flagged,
  is_queued, mark_started, mark_succeeded, mark_failed, mark_failed_if_queued,
  mark_cancelled_after_run, mark_cancelled_if_pending, mark_cancel_requested,
}

-- started, finished, flagged for cancellation, with an output, with an error
abbrev pub columns : AgentRunStatus → Bool → Bool → Bool → Bool → Bool → Bool
columns queued started finished flagged output error =
    not started && not finished && not flagged && not output && not error
columns running started finished flagged output error =
    started && not finished && not output && not error
columns succeeded started finished flagged output error =
    started && finished && not flagged && output && not error
columns failed started finished flagged output error =
    finished && not flagged && not output && error
columns cancelled started finished flagged output error =
    finished && flagged && not output && not error

abbrev pub is_consistent : AgentRun → Bool
is_consistent r =
    columns r.status (is_some r.started_at) (is_some r.finished_at) (is_some r.cancel_requested_at)
      (is_some r.output) (is_some r.error)

preserved :
    (guard : AgentRun → Bool) (values : AgentRun → AgentRun) (r : AgentRun)
    → is_consistent r ≡ true
    → (guard r ≡ true → is_consistent (values r) ≡ true)
    → is_consistent (update_row guard values r) ≡ true
preserved guard values r c hit = elim (Bool-cases (guard r)) [
  | inl h ↦ rw h (hit h)
  | inr h ↦ rw h c
]

-- the columns after each UPDATE that matches
queued_columns :
    (r : AgentRun) (key : Bool)
    → is_consistent r ≡ true
    → (key && is_startable r) ≡ true
    → columns running true
        (is_some r.finished_at)
        (is_some r.cancel_requested_at)
        (is_some r.output)
        (is_some r.error)
      ≡ true
queued_columns r key c h = ground arith

succeeded_columns :
    (r : AgentRun) (key : Bool)
    → is_consistent r ≡ true
    → (key && is_in_flight r) ≡ true
    → columns succeeded
        (is_some r.started_at)
        true
        (is_some r.cancel_requested_at)
        true
        (is_some r.error)
      ≡ true
succeeded_columns r key c h = ground arith

failed_columns :
    (r : AgentRun) (key : Bool)
    → is_consistent r ≡ true
    → (key && is_in_flight r) ≡ true
    → columns failed
        (is_some r.started_at)
        true
        (is_some r.cancel_requested_at)
        (is_some r.output)
        true
      ≡ true
failed_columns r key c h = ground arith

abandoned_columns :
    (r : AgentRun) (key : Bool)
    → is_consistent r ≡ true
    → (key && is_queued r) ≡ true
    → columns failed
        (is_some r.started_at)
        true
        (is_some r.cancel_requested_at)
        (is_some r.output)
        true
      ≡ true
abandoned_columns r key c h = ground arith

stopped_columns :
    (r : AgentRun) (key : Bool)
    → is_consistent r ≡ true
    → (key && is_flagged r) ≡ true
    → columns cancelled
        (is_some r.started_at)
        true
        (is_some r.cancel_requested_at)
        (is_some r.output)
        (is_some r.error)
      ≡ true
stopped_columns r key c h = ground arith

withdrawn_columns :
    (r : AgentRun) (key : Bool)
    → is_consistent r ≡ true
    → (key && is_startable r) ≡ true
    → columns cancelled (is_some r.started_at) true true (is_some r.output) (is_some r.error) ≡ true
withdrawn_columns r key c h = ground arith

flagged_columns :
    (r : AgentRun) (key : Bool)
    → is_consistent r ≡ true
    → (key && is_in_flight r) ≡ true
    → columns r.status
        (is_some r.started_at)
        (is_some r.finished_at)
        true
        (is_some r.output)
        (is_some r.error)
      ≡ true
flagged_columns r key c h = ground arith

update_consistent :
    (o i : ℕ) (u : Update) (r : AgentRun)
    → is_consistent r ≡ true
    → is_consistent (update_of o i u r) ≡ true
unfolding update_of mark_started mark_succeeded mark_failed mark_failed_if_queued
    mark_cancelled_after_run mark_cancelled_if_pending mark_cancel_requested
update_consistent o i (start now) r c =
    preserved (keyed o i is_startable) (start_values now) r c (λ h. queued_columns r _ c h)
update_consistent o i (succeed output cost at) r c =
    preserved (keyed o i is_in_flight) (succeed_values output cost at) r c
      (λ h. succeeded_columns r _ c h)
update_consistent o i (fail error at) r c =
    preserved (keyed o i is_in_flight) (fail_values error at) r c (λ h. failed_columns r _ c h)
update_consistent o i (fail_queued error at) r c =
    preserved (keyed o i is_queued) (fail_values error at) r c (λ h. abandoned_columns r _ c h)
update_consistent o i (cancel_after_run at) r c =
    preserved (keyed o i is_flagged) (stop_values at) r c (λ h. stopped_columns r _ c h)
update_consistent o i (cancel_pending requested_at by at) r c =
    preserved (keyed o i is_startable) (withdraw_values requested_at by at) r c
      (λ h. withdrawn_columns r _ c h)
update_consistent o i (flag_cancel requested_at by) r c =
    preserved (keyed o i is_in_flight) (flag_values requested_at by) r c
      (λ h. flagged_columns r _ c h)

table_consistent :
    (o i : ℕ) (u : Update) (rs : List AgentRun)
    → All (λ r. is_consistent r ≡ true) rs
    → All (λ r. is_consistent r ≡ true) (map (update_of o i u) rs)
table_consistent o i u [] c = tt
table_consistent o i u (r ∷ rs) (c, cs) =
    (update_consistent o i u r c, table_consistent o i u rs cs)

-- The columns of every run fit its status, whatever UPDATEs are issued in whatever order: a queued
-- run has not started and is not flagged, a succeeded or failed run is finished and not flagged and
-- has an output or an error, and a cancelled run is finished and flagged.
pub execute-is_consistent :
    (ss : List Statement) (runs : List AgentRun)
    → All (λ r. is_consistent r ≡ true) runs
    → All (λ r. is_consistent r ≡ true) (execute ss runs)
unfolding execute
execute-is_consistent [] runs c = c
execute-is_consistent (s ∷ ss) runs c =
    execute-is_consistent ss _ (table_consistent s.organization_id s.run_id s.update runs c)
