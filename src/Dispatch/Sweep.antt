-- ===== src/Dispatch/Sweep.antt =====
-- backend/app/services/schedule_dispatcher.py: `dispatch_due`, with the clock `now` in microseconds.
-- `queue` commits the savepoint with the rest when it succeeds; an AppError rolls the savepoint back.
-- What other sessions commit before the reservation of the k-th trigger is `others k`. An overflow of
-- the cron search is not a ValueError and leaves the method.
use agency_os.Prelude.{
  ℕ, ◌+◌, ◌*◌, String, Bool, false, Option, none, some, List, [], ◌∷◌, length, leb, if◌then◌else◌,
  Text,
}
use agency_os.Automation.{is_enabled}
use agency_os.Db.Tables.{Db, Trigger, field, end, text, Json, exponential}
use agency_os.Db.Session.{M, Result, ok, err, ◌>>=◌, ◌>>◌, pure, raise, gets}
use agency_os.Cron.Fire.{Fire, fires, never, invalid, overflow, previous_fire, minute_us}
use agency_os.Dispatch.Triggers.{list_enabled_schedules, reserve_last_fired}
use agency_os.Execution.Service.Helpers.{Env, Others, yield_to}
use agency_os.Execution.Service.Queueing.{WorkflowExecutionCreate, Fresh, queue}

-- the branch that a trigger ends in
pub data Outcome : Type 0 where
  dispatched refused passed conflict : Outcome

-- the dict of counts
pub record Stats : Type 0 where
  pub scanned : ℕ
  pub queued : ℕ
  pub failed : ℕ
  pub skipped : ℕ
  pub conflicts : ℕ

abbrev pub scanned_only : ℕ → Stats
scanned_only n = record { scanned = n; queued = 0; failed = 0; skipped = 0; conflicts = 0 }

-- `stats[...] += 1`
abbrev pub tally : Outcome → Stats → Stats
tally dispatched s = record s { queued = s.queued + 1 }
tally refused s = record s { failed = s.failed + 1 }
tally passed s = record s { skipped = s.skipped + 1 }
tally conflict s = record s { conflicts = s.conflicts + 1 }

-- `trigger.last_fired_at is not None and trigger.last_fired_at >= fire_time`
abbrev pub is_fired : Option ℕ → ℕ → Bool
is_fired none tick = false
is_fired (some last) tick = leb tick last

-- what is left of a savepoint that began at `before`
abbrev pub settle : Db → Result Outcome × Db → Result Outcome × Db
settle before (ok outcome, db') = (ok outcome, db')
settle before (err x, db') = (ok refused, before)

-- `async with session.begin_nested()` under `except AppError`
abbrev pub or_refused : M Outcome → M Outcome
or_refused m db = settle db (m db)

-- `isoformat` writes the tick; `k` counts the triggers of the batch
module _ (env : Env) (others : Others) (fresh : ℕ → Fresh) (isoformat : ℕ → String) (now : ℕ) where
  unfoldable pub request_of : Trigger → ℕ → WorkflowExecutionCreate
  request_of trigger tick = record {
    organization_id = some trigger.organization_id;
    workflow_id = trigger.workflow_id;
    trigger_id = some trigger.id;
    input =
        field "trigger_config" (Json.object trigger.config)
          (field "scheduled_at" (text (isoformat tick)) end);
    max_attempts = 3;
    retry_delay_seconds = 60;
    retry_backoff = exponential;
    trace_id = none;
    idempotency_key = none;
  }

  unfoldable pub reserve_and_queue : ℕ → Trigger → ℕ → M Outcome
  reserve_and_queue k trigger tick = do
    reserved ← reserve_last_fired trigger.id tick now
    if reserved
        then (do
          execution ← queue env (fresh k) (request_of trigger tick) none false
          pure dispatched)
        else pure conflict

  unfoldable pub dispatch_tick : ℕ → Trigger → ℕ → M Outcome
  dispatch_tick k trigger tick =
      if is_fired trigger.last_fired_at tick
      then pure passed
      else (do yield_to others k; or_refused (reserve_and_queue k trigger tick))

  unfoldable pub dispatch_fire : ℕ → Trigger → Fire → M Outcome
  unfolding dispatch_tick
  dispatch_fire k trigger (fires minute) = dispatch_tick k trigger (minute * minute_us)
  dispatch_fire k trigger never = pure passed
  dispatch_fire k trigger invalid = pure passed
  dispatch_fire k trigger overflow = raise "OverflowError" 500

  unfoldable pub dispatch_trigger : ℕ → Trigger → Option Text → M Outcome
  dispatch_trigger k trigger none = pure passed
  dispatch_trigger k trigger (some cron) = dispatch_fire k trigger (previous_fire cron now)

  unfoldable pub dispatch_all : ℕ → List Trigger → Stats → M Stats
  dispatch_all k [] stats = pure stats
  dispatch_all k (trigger ∷ triggers) stats = do
    outcome ← dispatch_trigger k trigger trigger.schedule_cron
    dispatch_all (k + 1) triggers (tally outcome stats)

  unfoldable pub dispatch_listed : ℕ → M Stats
  dispatch_listed limit = do
    triggers ← list_enabled_schedules limit
    dispatch_all 0 triggers (scanned_only (length triggers))

  unfoldable pub dispatch_due : ℕ → M Stats
  dispatch_due limit = do
    enabled ← gets is_enabled
    if enabled then dispatch_listed limit else pure (scanned_only 0)
