-- ===== src/Automation.antt =====
-- backend/app/services/automation_control_service.py: the global kill switch. Its four settings
-- rows are `Db.settings`. The upsert of `get_status` lasts only if its caller commits; here it is
-- what the session sees. Time is the argument `now`.
pub mod Laws
mod Examples
use agency_os.Prelude.{
  ℕ, ◌+◌, String, Bool, true, false, Option, none, some, ◌∷◌, is_none, not, if◌then◌else◌,
}
use agency_os.Db.Tables.{
  Db, SystemSettings, Metrics, ActivityLog, ActivityEventType, automation_paused,
  automation_resumed,
}
use agency_os.Db.Session.{M, ◌>>=◌, ◌>>◌, pure, raise, gets, modify, refuse_if}

pub record StatusResponse : Type 0 where
  pub enabled : Bool
  pub paused_by : Option ℕ
  pub paused_at : Option ℕ
  pub paused_reason : Option String

-- `bool(setting.value.get("enabled", True))`, with the default for a missing row
abbrev pub enabled_or : Bool → Option Bool → Bool
enabled_or default none = default
enabled_or default (some b) = b

abbrev update_settings : (SystemSettings → SystemSettings) → M (Unit {0})
update_settings f = modify λ db. record db { settings = f db.settings }

abbrev count : (Metrics → Metrics) → M (Unit {0})
count f = modify λ db. record db { metrics = f db.metrics }

abbrev log : ℕ → ℕ → ActivityEventType → M (Unit {0})
log organization_id user_id event_type = modify λ db. record db {
  logs =
      record {
        organization_id = organization_id;
        user_id = some user_id;
        event_type = event_type;
        entity_id = none;
        duration_ms = none;
      }
      ∷ db.logs;
}

-- `await self._repo.get(KEY_ENABLED) or await self._repo.set_value(KEY_ENABLED, ...)`
unfoldable pub ensure_enabled : Bool → M Bool
ensure_enabled default db =
    let value = enabled_or default db.settings.enabled in
    (do update_settings (λ s. record s { enabled = some value }); pure value) db

unfoldable pub get_status : M StatusResponse
unfolding ensure_enabled
get_status = do
  count (λ m. record m { automation_status_reads = m.automation_status_reads + 1 })
  enabled ← ensure_enabled true
  s ← gets (λ db. db.settings)
  pure (record {
    enabled = enabled;
    paused_by = s.paused_by;
    paused_at = s.paused_at;
    paused_reason = s.paused_reason;
  })

unfoldable pub pause : ℕ → ℕ → String → ℕ → M StatusResponse
unfolding ensure_enabled get_status
pause now user_id reason organization_id = do
  count (λ m. record m { automation_paused_total = m.automation_paused_total + 1 })
  enabled ← ensure_enabled true
  refuse_if (not enabled) "automation.already_paused" 409
  update_settings (λ s. record s { enabled = some false })
  update_settings (λ s. record s { paused_by = some user_id })
  update_settings (λ s. record s { paused_at = some now })
  update_settings (λ s. record s { paused_reason = some reason })
  log organization_id user_id automation_paused
  get_status

unfoldable pub resume : ℕ → ℕ → M StatusResponse
unfolding ensure_enabled get_status
resume user_id organization_id = do
  count (λ m. record m { automation_resumed_total = m.automation_resumed_total + 1 })
  enabled ← ensure_enabled false
  refuse_if enabled "automation.already_resumed" 409
  update_settings (λ s. record s { enabled = some true })
  update_settings (λ s. record s { paused_by = none })
  update_settings (λ s. record s { paused_at = none })
  update_settings (λ s. record s { paused_reason = none })
  log organization_id user_id automation_resumed
  get_status

unfoldable pub is_enabled : Db → Bool
is_enabled db = enabled_or true db.settings.enabled

unfoldable pub block_if_paused : String → M (Unit {0})
unfolding is_enabled
block_if_paused code = do enabled ← gets is_enabled; refuse_if (not enabled) code 409

abbrev pub block_execution_if_paused : M (Unit {0})
block_execution_if_paused = block_if_paused "automation.paused"

abbrev pub block_queue_if_paused : M (Unit {0})
block_queue_if_paused = block_if_paused "automation.paused.queue_blocked"

abbrev pub block_schedule_if_paused : M (Unit {0})
block_schedule_if_paused = block_if_paused "automation.paused.schedule_blocked"

abbrev pub gate_execution_phases : M (Unit {0})
gate_execution_phases = block_if_paused "automation.paused.global"
