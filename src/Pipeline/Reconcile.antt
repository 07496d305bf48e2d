-- ===== src/Pipeline/Reconcile.antt =====
-- backend/app/services/pipeline_service.py: `reconcile` with its helpers, and `move`. The lead that
-- the method mutates is its argument and its result.
use agency_os.Prelude.{
  ℕ, String, Bool, true, false, ◌&&◌, not, Option, none, some, List, ◌∷◌, ◌==◌, is_some,
  if◌then◌else◌,
}
use agency_os.Db.Rows.{first_row, update_rows}
use agency_os.Db.Store.{◌>>=◌, ◌>>◌, pure, raise, gets, modify, refuse_if, rolled_back}
use agency_os.Pipeline.Board.{
  LeadStatus, contacted, won, lost, same_status, value, status_of, StageLifecycle, open_stages,
  won_stages, lost_stages, same_lifecycle, PipelineStage, CloseReason, Lead, LeadEvent, lead_won,
  lead_lost, M, get, get_or_404, get_default,
}
use agency_os.Pipeline.Stages.{ensure_defaults}

abbrev pub bucket_of : LeadStatus → StageLifecycle
bucket_of won = won_stages
bucket_of lost = lost_stages
bucket_of _ = open_stages

abbrev pub is_open : LeadStatus → Bool
is_open status = same_lifecycle (bucket_of status) open_stages

-- `previous if previous in _OPEN_STATUSES else CONTACTED`
abbrev pub fallback : LeadStatus → LeadStatus
fallback previous = if is_open previous then previous else contacted

abbrev pub open_or : Option LeadStatus → LeadStatus → LeadStatus
open_or none previous = fallback previous
open_or (some candidate) previous = if is_open candidate then candidate else fallback previous

unfoldable pub open_status_for : PipelineStage → LeadStatus → LeadStatus
open_status_for stage previous = open_or (status_of stage.name) previous

abbrev pub with_status : Option LeadStatus → Lead → Lead
with_status none lead = lead
with_status (some status) lead = record lead { status = status }

-- `await self._stages.get(...) if lead.stage_id is not None else None`
abbrev pub stage_at : ℕ → Option ℕ → List PipelineStage → Option PipelineStage
stage_at organization_id none stages = none
stage_at organization_id (some i) stages = get organization_id i stages

abbrev pub hint_of : LeadStatus → Option String
hint_of status = if is_open status then some (value status) else none

-- `_pick_stage` without a `stage_id`
unfoldable pub pick_current :
    ℕ → Lead → Bool → List PipelineStage → Option PipelineStage → Option PipelineStage
pick_current organization_id lead true stages none =
    get_default organization_id (bucket_of lead.status) (hint_of lead.status) stages
pick_current organization_id lead true stages (some current) =
    if same_lifecycle current.lifecycle (bucket_of lead.status)
    then some current
    else get_default organization_id (bucket_of lead.status) (hint_of lead.status) stages
pick_current organization_id lead false stages none =
    get_default organization_id (bucket_of lead.status) none stages
pick_current organization_id lead false stages (some current) = some current

unfoldable pub pick_stage : ℕ → Lead → Option ℕ → Bool → M (Option PipelineStage)
unfolding pick_current
pick_stage organization_id lead (some i) status_changed = do
  stage ← get_or_404 organization_id i
  pure (some stage)
pick_stage organization_id lead none status_changed = gets λ b.
    pick_current organization_id lead status_changed b.stages
      (stage_at organization_id lead.stage_id b.stages)

-- the status that a stage drives
abbrev pub driven : PipelineStage → LeadStatus → LeadStatus
driven stage previous = elim stage.lifecycle [
  | won_stages ↦ won
  | lost_stages ↦ lost
  | open_stages ↦ open_status_for stage previous
]

abbrev pub placed : LeadStatus → Option PipelineStage → Lead → Lead
placed previous none lead = lead
placed previous (some stage) lead = record lead {
  stage_id = some stage.id;
  status = driven stage previous;
}

-- the timestamps and the close reason, by the final status
unfoldable pub stamped : ℕ → LeadStatus → Lead → Lead
stamped now previous lead = elim (bucket_of lead.status) [
  | won_stages ↦ record lead {
    won_at = if same_status previous won then lead.won_at else some now;
    lost_at = none;
  }
  | lost_stages ↦ record lead {
    lost_at = if same_status previous lost then lead.lost_at else some now;
    won_at = none;
  }
  | open_stages ↦ record lead { won_at = none; lost_at = none; close_reason_id = none }
]

-- CloseReasonRepository.get
unfoldable pub get_reason : ℕ → ℕ → List CloseReason → Option CloseReason
get_reason organization_id i reasons =
    first_row (λ r. r.organization_id == organization_id && r.id == i) reasons

unfoldable pub closed_by : Option CloseReason → Lead → M Lead
closed_by none lead = raise "pipeline.close_reason_not_found" 404
closed_by (some reason) lead = do
  refuse_if (not (same_lifecycle (bucket_of lead.status) reason.lifecycle))
      "pipeline.close_reason_lifecycle_mismatch" 400
  pure (record lead { close_reason_id = some reason.id })

unfoldable pub with_close_reason : ℕ → Option ℕ → Lead → M Lead
unfolding closed_by
with_close_reason organization_id none lead = pure lead
with_close_reason organization_id (some i) lead = do
  found ← gets (λ b. get_reason organization_id i b.reasons)
  closed_by found lead

abbrev pub outcome_of : LeadStatus → Lead → List LeadEvent → List LeadEvent
outcome_of previous lead log =
    if same_status lead.status won && not (same_status previous won)
    then lead_won lead.id ∷ log
    else if same_status lead.status lost && not (same_status previous lost)
    then lead_lost lead.id ∷ log
    else log

unfoldable pub log_outcome : Bool → LeadStatus → Lead → M (Unit {0})
log_outcome emit_events previous lead = modify λ b. record b {
  activity = if emit_events then outcome_of previous lead b.activity else b.activity;
}

unfoldable pub reconcile :
    (ℕ → ℕ) → ℕ → ℕ → Lead → Option LeadStatus → Option ℕ → Option ℕ → Bool → M Lead
unfolding pick_stage with_close_reason log_outcome stamped
reconcile ids now organization_id lead status stage_id close_reason_id emit_events = do
  ensure_defaults ids organization_id
  stage ← pick_stage organization_id (with_status status lead) stage_id (is_some status)
  settled ←
      with_close_reason organization_id close_reason_id
        (stamped now lead.status (placed lead.status stage (with_status status lead)))
  log_outcome emit_events lead.status settled
  pure settled

-- `move`: the commit stores the lead
unfoldable pub move : (ℕ → ℕ) → ℕ → ℕ → Lead → ℕ → Option ℕ → M Lead
unfolding reconcile
move ids now organization_id lead stage_id close_reason_id = rolled_back (do
  moved ← reconcile ids now organization_id lead none (some stage_id) close_reason_id true
  modify (λ b. record b { leads = update_rows (λ l. l.id == moved.id) (λ l. moved) b.leads })
  pure moved)
