-- ===== src/Dispatch/Triggers.antt =====
-- backend/app/repositories/workflow_trigger.py: `list_enabled_schedules` and `reserve_last_fired`.
-- Times are microseconds. Rows that the ORDER BY does not tell apart keep the order of the table.
use agency_os.Prelude.{
  ℕ, Bool, true, false, ◌&&◌, ◌||◌, Option, none, some, List, [], ◌∷◌, map, select, take, length,
  ◌==◌, ltb, leb, if◌then◌else◌,
}
use agency_os.Db.Tables.{Trigger, Workflow, is_active}
use agency_os.Db.Session.{M, pure, gets}

-- the join: an active workflow has the trigger's workflow_id
abbrev pub on_active_workflow : List Workflow → Trigger → Bool
on_active_workflow [] t = false
on_active_workflow (w ∷ ws) t =
    w.id == t.workflow_id && is_active w.status || on_active_workflow ws t

abbrev pub is_listed : List Workflow → Trigger → Bool
is_listed ws t = t.is_schedule && t.enabled && on_active_workflow ws t

-- `last_fired_at ASC NULLS FIRST, created_at ASC`: whether `a` may stand before `b`
abbrev pub in_order : Trigger → Trigger → Bool
in_order a b = elim a.last_fired_at [
  | none ↦ elim b.last_fired_at [ none ↦ leb a.created_at b.created_at | some y ↦ true ]
  | some x ↦ elim b.last_fired_at [
    | none ↦ false
    | some y ↦ ltb x y || x == y && leb a.created_at b.created_at
  ]
]

unfoldable pub insert_trigger : Trigger → List Trigger → List Trigger
insert_trigger t [] = t ∷ []
insert_trigger t (u ∷ us) =
    let rest = insert_trigger t us in if in_order t u then t ∷ u ∷ us else u ∷ rest

unfoldable pub order_triggers : List Trigger → List Trigger
unfolding insert_trigger
order_triggers [] = []
order_triggers (t ∷ ts) = insert_trigger t (order_triggers ts)

unfoldable pub list_enabled_schedules : ℕ → M (List Trigger)
list_enabled_schedules limit =
    gets λ db. take limit (order_triggers (select (is_listed db.workflows) db.triggers))

-- `last_fired_at IS NULL OR last_fired_at < previous_fire`
abbrev pub fired_before : Option ℕ → ℕ → Bool
fired_before none tick = true
fired_before (some last) tick = ltb last tick

abbrev pub is_reservable : ℕ → ℕ → Trigger → Bool
is_reservable trigger_id tick t = t.id == trigger_id && fired_before t.last_fired_at tick

abbrev pub reserve_row : ℕ → ℕ → ℕ → Trigger → Trigger
reserve_row trigger_id tick now t =
    if is_reservable trigger_id tick t then record t { last_fired_at = some now } else t

-- the UPDATE, and `rowcount == 1`
unfoldable pub reserve_last_fired : ℕ → ℕ → ℕ → M Bool
reserve_last_fired trigger_id previous_fire now db =
    let matched = length (select (is_reservable trigger_id previous_fire) db.triggers) in
    pure (matched == 1)
      (record db { triggers = map (reserve_row trigger_id previous_fire now) db.triggers })
