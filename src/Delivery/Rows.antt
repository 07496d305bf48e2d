-- ===== src/Delivery/Rows.antt =====
-- backend/app/models/delivery.py, and the guarded transitions of repositories/delivery.py, each a
-- single `UPDATE ... WHERE ... RETURNING`. `at` is the clock that the method or the database reads
-- for the statement; every UPDATE sets `updated_at`.
use agency_os.Prelude.{
  ℕ, ◌+◌, String, Bool, true, false, ◌&&◌, ◌||◌, Option, none, some, List, [], ◌∷◌, ◌==◌, leb, ltb,
  is_none, is_some,
}
use agency_os.Db.Tables.{Fields}
use agency_os.Db.Rows.{update_rows}

pub data DeliveryStatus : Type 0 where
  queued processing delivered retrying failed cancelled : DeliveryStatus

-- the identity of enum members
abbrev status_number : DeliveryStatus → ℕ
status_number queued = 0
status_number processing = 1
status_number delivered = 2
status_number retrying = 3
status_number failed = 4
status_number cancelled = 5

abbrev pub same_status : DeliveryStatus → DeliveryStatus → Bool
same_status a b = status_number a == status_number b

pub data DeliveryChannel : Type 0 where
  dashboard email whatsapp push : DeliveryChannel

pub record Delivery : Type 0 where
  pub id : ℕ
  pub organization_id : ℕ
  pub channel : DeliveryChannel
  pub recipient_user_id : Option ℕ
  pub notification_id : Option ℕ
  pub approval_request_id : Option ℕ
  pub subject : String
  pub body : String
  pub action_url : Option String
  pub status : DeliveryStatus
  pub attempts : ℕ
  pub max_attempts : ℕ
  pub next_attempt_at : Option ℕ
  pub attempt_started_at : Option ℕ
  pub cancel_requested_at : Option ℕ
  pub cancelled_by_user_id : Option ℕ
  pub last_error : Option String
  pub provider_metadata : Fields
  pub payload : Fields
  pub idempotency_key : Option String
  pub scheduled_for : ℕ
  pub delivered_at : Option ℕ
  pub failed_at : Option ℕ
  pub cancelled_at : Option ℕ
  pub updated_at : ℕ

abbrev pub is_processing : Delivery → Bool
is_processing d = same_status d.status processing

-- `next_attempt_at IS NULL OR next_attempt_at <= now`
abbrev pub reached : Option ℕ → ℕ → Bool
reached none now = true
reached (some t) now = leb t now

-- `t IS NOT NULL AND t < before`, for a comparison with NULL
abbrev pub earlier : Option ℕ → ℕ → Bool
earlier none before = false
earlier (some t) before = ltb t before

-- the WHERE clauses beside the keys
abbrev pub is_due : ℕ → Delivery → Bool
is_due now d =
    same_status d.status queued && leb d.scheduled_for now && reached d.next_attempt_at now

abbrev pub is_waiting : Delivery → Bool
is_waiting d = same_status d.status queued || same_status d.status retrying

abbrev pub is_unflagged : Delivery → Bool
is_unflagged d = is_processing d && is_none d.cancel_requested_at

abbrev pub is_flagged : Delivery → Bool
is_flagged d = is_processing d && is_some d.cancel_requested_at

abbrev pub is_retryable : Delivery → Bool
is_retryable d = same_status d.status failed || same_status d.status cancelled

abbrev pub is_stale : ℕ → Delivery → Bool
is_stale before d =
    is_processing d
    && (is_none d.attempt_started_at
        || earlier d.attempt_started_at before
        || ltb d.updated_at before)

abbrev pub is_promotable : ℕ → Delivery → Bool
is_promotable now d =
    same_status d.status retrying && is_some d.next_attempt_at && reached d.next_attempt_at now

-- the SET clauses
abbrev pub claim_values : ℕ → Delivery → Delivery
claim_values at d = record d {
  status = processing;
  attempts = d.attempts + 1;
  next_attempt_at = none;
  attempt_started_at = some at;
  last_error = none;
  updated_at = at;
}

abbrev pub deliver_values : Fields → ℕ → Delivery → Delivery
deliver_values provider_metadata at d = record d {
  status = delivered;
  delivered_at = some at;
  next_attempt_at = none;
  attempt_started_at = none;
  cancel_requested_at = none;
  cancelled_by_user_id = none;
  last_error = none;
  provider_metadata = provider_metadata;
  updated_at = at;
}

abbrev pub fail_values : String → ℕ → Delivery → Delivery
fail_values error at d = record d {
  status = failed;
  failed_at = some at;
  next_attempt_at = none;
  attempt_started_at = none;
  cancel_requested_at = none;
  cancelled_by_user_id = none;
  last_error = some error;
  updated_at = at;
}

abbrev pub retry_values : ℕ → String → ℕ → Delivery → Delivery
retry_values next_attempt_at error at d = record d {
  status = retrying;
  next_attempt_at = some next_attempt_at;
  attempt_started_at = none;
  last_error = some error;
  updated_at = at;
}

abbrev pub flag_values : Option ℕ → ℕ → Delivery → Delivery
flag_values cancelled_by at d = record d {
  cancel_requested_at = some at;
  cancelled_by_user_id = cancelled_by;
  updated_at = at;
}

abbrev pub cancel_values : Option ℕ → ℕ → Delivery → Delivery
cancel_values cancelled_by at d = record d {
  status = cancelled;
  cancelled_at = some at;
  cancelled_by_user_id = cancelled_by;
  next_attempt_at = none;
  attempt_started_at = none;
  updated_at = at;
}

abbrev pub cancel_after_send_values : Option String → ℕ → Delivery → Delivery
cancel_after_send_values error at d = record d {
  status = cancelled;
  cancelled_at = some at;
  next_attempt_at = none;
  attempt_started_at = none;
  last_error = error;
  updated_at = at;
}

abbrev pub requeue_values : ℕ → Delivery → Delivery
requeue_values at d = record d {
  status = queued;
  attempts = 0;
  next_attempt_at = some at;
  attempt_started_at = none;
  cancel_requested_at = none;
  cancelled_by_user_id = none;
  delivered_at = none;
  failed_at = none;
  cancelled_at = none;
  last_error = none;
  updated_at = at;
}

abbrev pub recover_values : ℕ → Delivery → Delivery
recover_values at d = record d {
  status = queued;
  next_attempt_at = some at;
  attempt_started_at = none;
  updated_at = at;
}

abbrev pub promote_values : ℕ → Delivery → Delivery
promote_values at d = record d { status = queued; next_attempt_at = none; updated_at = at }

-- `organization_id == organization_id AND id == delivery_id AND guard`
abbrev pub keyed : ℕ → ℕ → (Delivery → Bool) → Delivery → Bool
keyed organization_id delivery_id guard d =
    (d.organization_id == organization_id && d.id == delivery_id) && guard d

-- a transition, with the arguments that its method takes
pub data Transition : Type 0 where
  claim : Transition
  mark_delivered : Fields → Transition
  mark_failed : String → Transition
  schedule_retry : ℕ → String → Transition
  mark_cancel_requested : Option ℕ → Transition
  mark_cancelled : Option ℕ → Transition
  mark_cancelled_after_send : Option String → Transition
  mark_requeued : Transition
  requeue_stale : ℕ → Transition

unfoldable pub guard_of : Transition → ℕ → Delivery → Bool
guard_of claim at = is_due at
guard_of (mark_delivered _) at = is_processing
guard_of (mark_failed _) at = is_processing
guard_of (schedule_retry _ _) at = is_processing
guard_of (mark_cancel_requested _) at = is_unflagged
guard_of (mark_cancelled _) at = is_waiting
guard_of (mark_cancelled_after_send _) at = is_flagged
guard_of mark_requeued at = is_retryable
guard_of (requeue_stale before) at = is_stale before

unfoldable pub values_of : Transition → ℕ → Delivery → Delivery
values_of claim at = claim_values at
values_of (mark_delivered provider_metadata) at = deliver_values provider_metadata at
values_of (mark_failed error) at = fail_values error at
values_of (schedule_retry next_attempt_at error) at = retry_values next_attempt_at error at
values_of (mark_cancel_requested cancelled_by) at = flag_values cancelled_by at
values_of (mark_cancelled cancelled_by) at = cancel_values cancelled_by at
values_of (mark_cancelled_after_send error) at = cancel_after_send_values error at
values_of mark_requeued at = requeue_values at
values_of (requeue_stale _) at = recover_values at

-- a statement of any session: a transition of one row, or the bulk promotion of `requeue_due_retrying`
pub data Statement : Type 0 where
  transition : ℕ → ℕ → ℕ → Transition → Statement
  promote_due : ℕ → Statement

unfoldable pub run : Statement → List Delivery → List Delivery
run (transition organization_id delivery_id at t) =
    update_rows (keyed organization_id delivery_id (guard_of t at)) (values_of t at)
run (promote_due at) = update_rows (is_promotable at) (promote_values at)

-- the table after statements of all sessions, in the order in which the database runs them
unfoldable pub execute : List Statement → List Delivery → List Delivery
execute [] rows = rows
execute (s ∷ ss) rows = execute ss (run s rows)
