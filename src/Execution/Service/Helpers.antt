-- ===== src/Execution/Service/Helpers.antt =====
-- workflow_execution_service.py: payload check, audit and timeline rows, metrics, retry delay.
use agency_os.Prelude.{
  ℕ, ◌+◌, ◌-◌, ◌*◌, ◌^◌, String, Bool, Option, none, some, ◌∷◌, ltb, not, if◌then◌else◌,
}
use agency_os.Prelude.Int.{ℤ}
use agency_os.Db.Tables.{
  Db, Execution, ExecutionStatus, ExecutionEventType, ActivityEventType, Metrics, RetryBackoff,
  constant, exponential, Fields,
}
use agency_os.Db.Session.{M, pure, raise, modify, refuse_if}

-- What a method takes from outside: the limits of core/config.py, the length of a payload's JSON
-- text (`json.dumps`), the milliseconds between two times (float arithmetic of `datetime`), and
-- whether the timeline's insert succeeds (it is best-effort).
pub record Env : Type 0 where
  pub max_result_size_bytes : ℕ
  pub max_pending_per_org : ℕ
  pub timeout_seconds : ℕ
  pub payload_size : Fields → ℕ
  pub elapsed_ms : ℕ → ℕ → ℤ
  pub timeline_writable : Bool

-- What other sessions commit while the method waits for the lock of its n-th guarded UPDATE.
abbrev pub Others : Type 0
Others = ℕ → Db → Db

abbrev pub alone : Others
alone n db = db

-- the other sessions get their turn
abbrev pub yield_to : Others → ℕ → M (Unit {0})
yield_to others n = modify (others n)

unfoldable pub assert_payload_size : Env → Fields → M (Unit {0})
assert_payload_size env payload =
    refuse_if (ltb env.max_result_size_bytes (env.payload_size payload))
      "execution.payload_too_large" 413

abbrev pub duration_ms : Env → Option ℕ → Option ℕ → Option ℤ
duration_ms env none finished_at = none
duration_ms env (some s) none = none
duration_ms env (some s) (some f) = some (env.elapsed_ms s f)

abbrev pub observe : ExecutionStatus → Option ℤ → Metrics → Metrics
observe status none m = m
observe status (some d) m = record m { durations = (status, d) ∷ m.durations }

unfoldable pub record_duration : ExecutionStatus → Option ℤ → M (Unit {0})
record_duration status d = modify λ db. record db { metrics = observe status d db.metrics }

unfoldable pub audit : Execution → Option ℕ → ActivityEventType → Option ℕ → Option ℤ → M (Unit {0})
audit e entity_id event_type actor duration = modify λ db. record db {
  logs =
      record {
        organization_id = e.organization_id;
        user_id = actor;
        event_type = event_type;
        entity_id = entity_id;
        duration_ms = duration;
      }
      ∷ db.logs;
}

unfoldable pub timeline : Env → Execution → ExecutionEventType → M (Unit {0})
timeline env e event_type = modify λ db. record db {
  events =
      if env.timeline_writable
      then record {
        organization_id = e.organization_id;
        workflow_id = e.workflow_id;
        execution_id = e.id;
        attempt = e.attempts;
        event_type = event_type;
      }
        ∷ db.events
      else db.events;
}

unfoldable pub count : (Metrics → Metrics) → M (Unit {0})
count f = modify λ db. record db { metrics = f db.metrics }

abbrev pub count_cancelled : M (Unit {0})
count_cancelled = count λ m. record m { cancelled_total = m.cancelled_total + 1 }

abbrev pub count_failed : M (Unit {0})
count_failed = count λ m. record m { failed_total = m.failed_total + 1 }

abbrev pub count_retried : M (Unit {0})
count_retried = count λ m. record m { retried_total = m.retried_total + 1 }

abbrev pub count_timed_out : M (Unit {0})
count_timed_out = count λ m. record m { timed_out_total = m.timed_out_total + 1 }

abbrev pub invalid_state : String
invalid_state = "execution.invalid_state"

-- `if not test: raise AppError(code="execution.invalid_state", status_code=409)`
abbrev pub require_state : Bool → M (Unit {0})
require_state test = refuse_if (not test) invalid_state 409

-- `if updated is None: updated = await ...`
abbrev pub or_else : Option Execution → M (Option Execution) → M (Option Execution)
or_else none m = m
or_else (some e) m = pure (some e)

-- `if updated is None: rollback and raise`
abbrev pub or_409 : Option Execution → M Execution
or_409 none = raise invalid_state 409
or_409 (some e) = pure e

-- `attempts - 1` is exact where the attempt count is at least 1, as on every running row.
unfoldable pub retry_delay_seconds : Execution → ℕ
retry_delay_seconds e = delay e.retry_backoff
  where
    delay : RetryBackoff → ℕ
    delay exponential = e.retry_delay_seconds * 2 ^ (e.attempts - 1)
    delay constant = e.retry_delay_seconds
