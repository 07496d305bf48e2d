-- ===== src/Delivery/Service.antt =====
-- backend/app/services/delivery_service.py: `get`, `enqueue`, `cancel` and `retry`. What other sessions
-- commit between a method's read and its UPDATE is `others 0`. A rolled back method has changed
-- nothing. Every database constraint but those named here is left out.
use agency_os.Prelude.{
  ℕ, ◌+◌, String, Bool, true, false, ◌&&◌, ◌||◌, not, Option, none, some, List, ◌∷◌, ◌==◌, leb, ltb,
  is_none, length, select, if◌then◌else◌,
}
use text.Mathlib.Text.{◌==◌ as str_eq}
use agency_os.Db.Tables.{Fields, end}
use agency_os.Db.Rows.{first_row}
use agency_os.Db.Store.{◌>>=◌, ◌>>◌, pure, raise, gets, modify, refuse_if, or_raise}
use agency_os.Delivery.Outbox.{M, Others, DeliveryEvent, DeliveryEventType, event, count, apply}
use agency_os.Delivery.Rows.{
  Delivery, DeliveryChannel, DeliveryStatus, keyed, mark_cancelled, mark_cancel_requested,
  mark_requeued, is_waiting, is_processing, is_retryable,
}
use agency_os.Delivery.Worker.{provider_available}

-- the limits of core/config.py, and the byte size of a payload's JSON
pub record Env : Type 0 where
  pub max_attempts : ℕ
  pub max_pending_per_org : ℕ
  pub max_payload_bytes : ℕ
  pub payload_size : Fields → ℕ

-- the arguments of `enqueue`
pub record Request : Type 0 where
  pub channel : DeliveryChannel
  pub recipient_user_id : Option ℕ
  pub notification_id : Option ℕ
  pub approval_request_id : Option ℕ
  pub subject : String
  pub body : String
  pub action_url : Option String
  pub payload : Fields
  pub max_attempts : Option ℕ
  pub scheduled_for : Option ℕ
  pub idempotency_key : Option String

-- `value or default`, for an int and for a time
abbrev pub or_default : Option ℕ → ℕ → ℕ
or_default none default = default
or_default (some x) default = if x == 0 then default else x

abbrev pub or_now : Option ℕ → ℕ → ℕ
or_now none now = now
or_now (some t) now = t

-- an absent or empty key is false
abbrev pub is_given : Option String → Bool
is_given none = false
is_given (some k) = not (str_eq k "")

abbrev pub same_key : Option String → Option String → Bool
same_key (some k) (some j) = str_eq k j
same_key _ _ = false

unfoldable pub get : ℕ → ℕ → M Delivery
get organization_id delivery_id = do
  found ← gets (λ o. first_row (keyed organization_id delivery_id (λ d. true)) o.deliveries)
  or_raise found "delivery.not_found" 404

unfoldable pub payload_too_large : Env → Fields → Bool
payload_too_large env payload =
    not (env.max_payload_bytes == 0) && ltb env.max_payload_bytes (env.payload_size payload)

abbrev pub is_active : Delivery → Bool
is_active d = is_waiting d || is_processing d

unfoldable pub count_pending : ℕ → List Delivery → ℕ
count_pending organization_id rows =
    length (select (λ d. d.organization_id == organization_id && is_active d) rows)

unfoldable pub get_by_idempotency : ℕ → Option String → List Delivery → Option Delivery
get_by_idempotency organization_id key rows =
    first_row (λ d. d.organization_id == organization_id && same_key d.idempotency_key key) rows

unfoldable pub new_delivery : Env → ℕ → ℕ → ℕ → Request → Delivery
new_delivery env organization_id id now r = record {
  id = id;
  organization_id = organization_id;
  channel = r.channel;
  recipient_user_id = r.recipient_user_id;
  notification_id = r.notification_id;
  approval_request_id = r.approval_request_id;
  subject = r.subject;
  body = r.body;
  action_url = r.action_url;
  status = DeliveryStatus.queued;
  attempts = 0;
  max_attempts = or_default r.max_attempts env.max_attempts;
  next_attempt_at = some (or_now r.scheduled_for now);
  attempt_started_at = none;
  cancel_requested_at = none;
  cancelled_by_user_id = none;
  last_error = none;
  provider_metadata = end;
  payload = r.payload;
  idempotency_key = r.idempotency_key;
  scheduled_for = or_now r.scheduled_for now;
  delivered_at = none;
  failed_at = none;
  cancelled_at = none;
  updated_at = now;
}

-- `delivery.id` is read before the flush that draws the id, so it is None
abbrev pub first_event : ℕ → DeliveryEvent
first_event organization_id = record {
  organization_id = organization_id;
  delivery_id = none;
  event_type = DeliveryEventType.queued;
  attempt = 0;
}

-- what the commit of a delivery and its event may break: the partial unique index of the keys, and
-- the NOT NULL of `delivery_events.delivery_id`
unfoldable pub violates : Delivery → DeliveryEvent → List Delivery → Bool
unfolding get_by_idempotency
violates d e rows =
    not (is_none (get_by_idempotency d.organization_id d.idempotency_key rows))
    || is_none e.delivery_id

unfoldable pub insert : Delivery → DeliveryEvent → M Delivery
unfolding violates
insert d e = do
  broken ← gets (λ o. violates d e o.deliveries)
  if is_given d.idempotency_key
      then refuse_if broken "delivery.duplicate_idempotency_key" 409
      else refuse_if broken "IntegrityError" 500
  modify (λ o. record o { deliveries = d ∷ o.deliveries; events = e ∷ o.events })
  count (λ c. record c { queued_total = c.queued_total + 1 })
  pure d

unfoldable pub existing_or_insert : Env → ℕ → ℕ → ℕ → Request → Option Delivery → M Delivery
unfolding insert
existing_or_insert env organization_id id now r (some existing) = pure existing
existing_or_insert env organization_id id now r none = do
  pending ← gets (λ o. count_pending organization_id o.deliveries)
  refuse_if (not (env.max_pending_per_org == 0) && leb env.max_pending_per_org pending)
      "delivery.pending_cap_exceeded" 429
  insert (new_delivery env organization_id id now r) (first_event organization_id)

-- `id` is what the flush would draw
unfoldable pub enqueue : Env → ℕ → ℕ → ℕ → Request → M Delivery
unfolding existing_or_insert
enqueue env organization_id id now r = do
  refuse_if (not (provider_available r.channel)) "provider.not_configured" 422
  refuse_if (payload_too_large env r.payload) "delivery.payload_too_large" 422
  existing ← gets (λ o.
      if is_given r.idempotency_key
      then get_by_idempotency organization_id r.idempotency_key o.deliveries
      else none)
  existing_or_insert env organization_id id now r existing

module _ (others : Others) (now organization_id delivery_id : ℕ) where
  -- the row as another session has left it
  unfoldable pub or_fresh : Option Delivery → M Delivery
  or_fresh (some d) = pure d
  or_fresh none = get organization_id delivery_id

  unfoldable pub note_withdrawn : Delivery → Option Delivery → M (Unit {0})
  note_withdrawn read none = pure tt
  note_withdrawn read (some d) = event organization_id read DeliveryEventType.cancelled

  unfoldable pub withdraw : Option ℕ → Delivery → M Delivery
  unfolding note_withdrawn or_fresh
  withdraw by read = do
    modify (others 0)
    done ← apply organization_id delivery_id now (mark_cancelled by)
    note_withdrawn read done
    or_fresh done

  unfoldable pub flag : Option ℕ → M Delivery
  unfolding or_fresh
  flag by = do
    modify (others 0)
    done ← apply organization_id delivery_id now (mark_cancel_requested by)
    or_fresh done

  unfoldable pub cancel : Option ℕ → M Delivery
  unfolding withdraw flag
  cancel by = do
    read ← get organization_id delivery_id
    if is_waiting read
        then withdraw by read
        else if is_processing read
        then flag by
        else raise "delivery.invalid_state" 409

  unfoldable pub note_retried : Option Delivery → M (Unit {0})
  note_retried none = pure tt
  note_retried (some d) = event organization_id d DeliveryEventType.queued

  unfoldable pub retry : M Delivery
  unfolding note_retried or_fresh
  retry = do
    read ← get organization_id delivery_id
    refuse_if (not (is_retryable read)) "delivery.invalid_state" 409
    modify (others 0)
    done ← apply organization_id delivery_id now mark_requeued
    note_retried done
    or_fresh done
