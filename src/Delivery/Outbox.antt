-- ===== src/Delivery/Outbox.antt =====
-- The tables of the outbox with the in-process counters: models/delivery_event.py, and the steps by
-- which services and workers change them.
use agency_os.Prelude.{ℕ, Option, some, List, ◌∷◌}
use agency_os.Db.Rows.{update_rows, returned}
use agency_os.Db.Store.{Action, pure, modify}
use agency_os.Delivery.Rows.{Delivery, Transition, guard_of, values_of, keyed}

-- models/enums.py; `superseded` is never written
pub data DeliveryEventType : Type 0 where
  queued claimed provider_dispatched provider_returned delivered : DeliveryEventType
  retrying failed cancelled timed_out recovery_guard superseded : DeliveryEventType

pub record DeliveryEvent : Type 0 where
  pub organization_id : ℕ
  pub delivery_id : Option ℕ
  pub event_type : DeliveryEventType
  pub attempt : ℕ

pub record Counters : Type 0 where
  pub queued_total : ℕ
  pub drained_total : ℕ
  pub delivered_total : ℕ
  pub failed_total : ℕ
  pub retried_total : ℕ
  pub cancelled_total : ℕ
  pub timed_out_total : ℕ
  pub recovered_total : ℕ

-- the tables and the in-process counters
pub record Outbox : Type 0 where
  pub deliveries : List Delivery
  pub events : List DeliveryEvent
  pub counters : Counters

abbrev pub M : Type 0 → Type 0
M A = Action Outbox A

abbrev pub count : (Counters → Counters) → M (Unit {0})
count f = modify λ o. record o { counters = f o.counters }

-- a transition at the clock's time `at`
unfoldable pub apply : ℕ → ℕ → ℕ → Transition → M (Option Delivery)
apply organization_id delivery_id at t o =
    let guard = keyed organization_id delivery_id (guard_of t at) in
    pure (returned guard (values_of t at) o.deliveries)
      (record o { deliveries = update_rows guard (values_of t at) o.deliveries })

-- `events_repo.add(self._event(...))`
unfoldable pub event : ℕ → Delivery → DeliveryEventType → M (Unit {0})
event organization_id d event_type = modify λ o. record o {
  events =
      record {
        organization_id = organization_id;
        delivery_id = some d.id;
        event_type = event_type;
        attempt = d.attempts;
      }
      ∷ o.events;
}

-- what other sessions commit at the n-th point at which they may
abbrev pub Others : Type 0
Others = ℕ → Outbox → Outbox

abbrev pub alone : Others
alone n o = o
