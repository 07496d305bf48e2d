-- ===== src/Approval/Examples.antt =====
-- An approval for a failed execution, and the theorems about approvals at it.
use agency_os.Prelude.{ℕ, ◌≡◌, refl, Bool, true, false, Option, none, some, [], ◌∷◌}
use agency_os.Prelude.Int.{pos}
use agency_os.Automation.{is_enabled}
use agency_os.Db.Rows.{order_by}
use agency_os.Db.Tables.{Execution, failed, constant, end}
use agency_os.Db.Session.{ok, err}
use agency_os.Execution.Repository.{find_row as find_execution}
use agency_os.Execution.Service.Helpers as Helpers
use agency_os.Execution.Service.Helpers.{Env}
use agency_os.Approval.Requests.{
  denied, ApprovalRequest, ApprovalRequestStatus, Approvals, pending, approved, find_row,
  unhandled_gates, claim_values, is_claimable,
}
use agency_os.Approval.Service.{decision_values, decide, not_pending}
use agency_os.Approval.Gate.{process_gate, sweep}
use agency_os.Approval.Deciding.{alone, refusal, IsDecided, decide-Decides}
use agency_os.Approval.Finality.{decided_once, late_decision_overwrites}
use agency_os.Approval.Claims.{Once, process_gate-Once}
use agency_os.Approval.Gating.{Applies, process_gate-Applies}
use agency_os.Approval.Sweeps.{sweeps, paused_gate_blocks}

abbrev env : Env
env = record {
  max_result_size_bytes = 100;
  max_pending_per_org = 2;
  timeout_seconds = 300;
  payload_size = λ p. 2;
  elapsed_ms = λ s f. pos 0;
  timeline_writable = true;
}

abbrev broken : Execution
broken = record {
  id = 11;
  organization_id = 1;
  workflow_id = 5;
  trigger_id = none;
  status = failed;
  input = end;
  output = none;
  error = some end;
  created_at = 10;
  started_at = some 20;
  finished_at = some 30;
  attempts = 3;
  max_attempts = 3;
  retry_delay_seconds = 60;
  retry_backoff = constant;
  next_retry_at = none;
  requested_by_user_id = none;
  trace_id = some 99;
  cancel_requested_at = none;
  cancelled_by_user_id = none;
  idempotency_key = none;
}

abbrev gate : ApprovalRequest
gate = record {
  id = 7;
  organization_id = 1;
  workflow_id = some 5;
  workflow_execution_id = some 11;
  requested_by_user_id = some 3;
  approver_user_id = none;
  title = "Send the invoice";
  details = none;
  status = pending;
  created_at = 40;
  expires_at = 500;
  decided_by_user_id = none;
  decided_at = none;
  decision_note = none;
  gate_handled_at = none;
}

-- the same, approved by user 4
abbrev settled_gate : ApprovalRequest
settled_gate = decision_values true 4 100 none gate

-- the tables with one request, and the kill switch
abbrev office : Option Bool → ApprovalRequest → Approvals
office enabled r = record {
  requests = r ∷ [];
  logs = [];
  db = record {
    executions = broken ∷ [];
    workflows = [];
    triggers = [];
    settings = record {
      enabled = enabled;
      paused_by = none;
      paused_at = none;
      paused_reason = none;
    };
    logs = [];
    events = [];
    metrics = record {
      queued_total = 0;
      drained_total = 0;
      retried_total = 0;
      failed_total = 0;
      timed_out_total = 0;
      cancelled_total = 0;
      automation_paused_total = 0;
      automation_resumed_total = 0;
      automation_status_reads = 0;
      durations = [];
    };
  };
}

decide-Decides_example :
    IsDecided 100 101 1 4 7 true none
      (office none gate)
      gate
      (ok (decision_values true 4 101 none gate))
      (decide alone 100 101 1 4 7 true none (office none gate)).1
unfolding find_row decide agency_os.Approval.Requests.get_or_404
decide-Decides_example = decide-Decides 100 101 1 4 7 true none (office none gate)

decided_once_example :
    decide alone 200 201 1 9 7 false none
      (decide alone 100 101 1 4 7 true none (office none gate)).1
    ≡ (err (refusal not_pending), (decide alone 100 101 1 4 7 true none (office none gate)).1)
decided_once_example =
    decided_once 100 101 1 4 7 true none (office none gate) gate (unfold find_row in refl) alone 200
      201 9 false none

-- user 4 approves with a note and the gate is applied, while user 9 denies with none
abbrev approved_gate : ApprovalRequest
approved_gate = record (decision_values true 4 100 (some "go") gate) { gate_handled_at = some 110 }

late_decision_overwrites_example :
    let (r, s') =
      decide (λ s. office none approved_gate) 100 120 1 9 7 false none (office none gate) in
    (r ≡ ok (decision_values false 9 120 none gate))
    × (find_row 1 7 s'.requests
        ≡ some (record approved_gate {
          status = denied;
          decided_by_user_id = some 9;
          decided_at = some 120;
        }))
late_decision_overwrites_example =
    late_decision_overwrites 100 120 1 9 7 false none (office none gate) gate
      (unfold find_row in refl) (λ s. office none approved_gate) approved_gate refl refl refl refl
      refl (unfold find_row in refl)

process_gate-Once_example :
    let (r, s') =
      process_gate env alone Helpers.alone 130 settled_gate (office none settled_gate) in
    Once env env alone Helpers.alone Helpers.alone 130 140 settled_gate
      (office none settled_gate)
      r
      s'
process_gate-Once_example =
    process_gate-Once env env alone Helpers.alone Helpers.alone 130 140 settled_gate
      (office none settled_gate)

process_gate-Applies_example :
    let (r, s') =
      process_gate env alone Helpers.alone 130 settled_gate (office none settled_gate) in
    Applies env 130 settled_gate 11 (office none settled_gate) true broken r s'
process_gate-Applies_example =
    process_gate-Applies env 130 settled_gate 11 (office none settled_gate) broken
      (unfold find_execution in refl) refl refl

paused_gate_blocks_example :
    (sweeps env 50 (150 ∷ 160 ∷ []) (office (some false) settled_gate)
      ≡ office (some false) settled_gate)
    × ((now : ℕ)
        → (sweep env alone Helpers.alone now 50 (office (some false) settled_gate)).0
          ≡ err (refusal "automation.paused"))
paused_gate_blocks_example =
    paused_gate_blocks env (office (some false) settled_gate) settled_gate [] 50 11 broken
      (unfold unhandled_gates order_by in refl) refl (unfold find_execution in refl) refl refl refl
      (unfold is_enabled in refl) (150 ∷ 160 ∷ [])
