-- ===== src/Delivery/Examples.antt =====
-- Tests of the outbox: a table of three deliveries.
use agency_os.Prelude.{ℕ, ◌+◌, ◌≤◌, ◌≡◌, refl, true, none, some, List, [], ◌∷◌, arith, All}
use agency_os.Db.Store.{modify}
use agency_os.Db.Tables.{end}
use agency_os.Delivery.Budget.{is_settled}
use agency_os.Delivery.Cancel.{Answers, called_off, cancel_lem, asks}
use agency_os.Delivery.Columns.{fits, execute-fits}
use agency_os.Delivery.Enqueue.{Unqueued, enqueue-Unqueued}
use agency_os.Delivery.Found.{Found}
use agency_os.Delivery.Lifecycle.{Stepwise, execute-Stepwise}
use agency_os.Delivery.Methods.{sweep_once-Moves}
use agency_os.Delivery.Outbox.{Outbox, alone}
use agency_os.Delivery.Promises.{Moves, Moves-apply}
use agency_os.Delivery.Passes.{passes}
use agency_os.Delivery.Rounds.{passes_settle}
use agency_os.Delivery.Rows.{
  Delivery, DeliveryStatus, dashboard, Statement, transition, promote_due, claim, mark_failed,
  mark_delivered, schedule_retry, execute, mark_cancel_requested,
}
use agency_os.Delivery.Service.{Env, Request, cancel, enqueue, get_by_idempotency}
use agency_os.Delivery.Sweep.{Limits, sweep_once}
use agency_os.Delivery.Worker.{Outcome, retryable}

abbrev row : ℕ → DeliveryStatus → Delivery
row id status = record {
  id = id;
  organization_id = 1;
  channel = dashboard;
  recipient_user_id = some 4;
  notification_id = none;
  approval_request_id = none;
  subject = "Weekly report";
  body = "12 new leads";
  action_url = none;
  status = status;
  attempts = 0;
  max_attempts = 3;
  next_attempt_at = some 90;
  attempt_started_at = none;
  cancel_requested_at = none;
  cancelled_by_user_id = none;
  last_error = none;
  provider_metadata = end;
  payload = end;
  idempotency_key = none;
  scheduled_for = 90;
  delivered_at = none;
  failed_at = none;
  cancelled_at = none;
  updated_at = 90;
}

abbrev waiting : Delivery
waiting = row 7 DeliveryStatus.queued

abbrev in_flight : Delivery
in_flight = record (row 8 DeliveryStatus.processing) {
  attempts = 1;
  next_attempt_at = none;
  attempt_started_at = some 95;
}

abbrev lost : Delivery
lost = record (row 9 DeliveryStatus.failed) {
  attempts = 3;
  next_attempt_at = none;
  last_error = some "502";
  failed_at = some 80;
}

abbrev table : List Delivery
table = waiting ∷ in_flight ∷ lost ∷ []

abbrev box_of : List Delivery → Outbox
box_of rows = record {
  deliveries = rows;
  events = [];
  counters = record {
    queued_total = 0;
    drained_total = 0;
    delivered_total = 0;
    failed_total = 0;
    retried_total = 0;
    cancelled_total = 0;
    timed_out_total = 0;
    recovered_total = 0;
  };
}

abbrev limits : Limits
limits = record {
  batch_size = 10;
  orgs_per_sweep = 5;
  retry_base_seconds = 30;
  recovery_seconds = 600;
}

abbrev always_fails : Delivery → Outcome
always_fails d = retryable "502"

abbrev clock : ℕ → ℕ
clock k = 100 + k

abbrev history : List Statement
history =
    transition 1 7 100 claim
    ∷ transition 1 8 101 (mark_delivered end)
    ∷ transition 1 7 102 (schedule_retry 132 "502")
    ∷ transition 1 8 103 (mark_failed "late")
    ∷ promote_due 140
    ∷ []

execute-Stepwise_example : Stepwise history table
execute-Stepwise_example = execute-Stepwise history table

execute-fits_example : All (λ d. fits d ≡ true) (execute history table)
execute-fits_example = execute-fits history table (refl, (refl, (refl, tt)))

asks-Respectful : (n : ℕ) → Moves (modify (asks 1 7 101 none n))
asks-Respectful n = record { moves = (Moves-apply 1 7 101 (mark_cancel_requested none)).moves }

sweep_once-Moves_example : Moves (sweep_once limits always_fails (asks 1 7 101 none) clock 100)
sweep_once-Moves_example =
    sweep_once-Moves limits always_fails (asks 1 7 101 none) asks-Respectful clock 100

passes_settle_example :
    (r : Delivery) × ((passes limits always_fails clock 3 0 1 (box_of (waiting ∷ []))).deliveries
      ≡ r ∷ [])
    × (is_settled r ≡ true)
    × (r.attempts ≤ 3)
passes_settle_example =
    passes_settle limits always_fails clock 0 waiting (box_of (waiting ∷ [])) (omega arith) refl
      (λ j. ground arith) (omega arith)

in_flight-Found : Found 1 8 in_flight table
in_flight-Found = record { found = refl; only = ((λ h. cc), ((λ h. refl), ((λ h. cc), tt))) }

cancel_lem_example :
    Answers true 1 8
      (called_off (some 4) 100 in_flight)
      (box_of table)
      (cancel alone 100 1 8 (some 4) (box_of table))
cancel_lem_example = cancel_lem 100 1 8 in_flight (box_of table) in_flight-Found (some 4)

abbrev env : Env
env = record {
  max_attempts = 5;
  max_pending_per_org = 100;
  max_payload_bytes = 0;
  payload_size = λ p. 0;
}

abbrev asked : Request
asked = record {
  channel = dashboard;
  recipient_user_id = some 4;
  notification_id = none;
  approval_request_id = none;
  subject = "Weekly report";
  body = "12 new leads";
  action_url = none;
  payload = end;
  max_attempts = none;
  scheduled_for = none;
  idempotency_key = some "report-41";
}

enqueue-Unqueued_example :
    Unqueued
      (box_of table)
      (get_by_idempotency 1 (some "report-41") table)
      (enqueue env 1 11 100 asked (box_of table))
enqueue-Unqueued_example = enqueue-Unqueued env 1 11 100 asked (box_of table)
