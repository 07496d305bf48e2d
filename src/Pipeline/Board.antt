-- ===== src/Pipeline/Board.antt =====
-- backend/app/models/pipeline_stage.py, models/close_reason.py, what the pipeline reads of models/lead.py,
-- and the queries of repositories/pipeline.py and repositories/lead.py over them. Rows of a table
-- stand in the order of their creation.
use agency_os.Prelude.{
  ℕ, String, Bool, true, false, ◌&&◌, Option, none, some, List, ◌==◌, leb, is_none, select, length,
  if◌then◌else◌,
}
use text.Mathlib.Text.{◌==◌ as str_eq}
use agency_os.Db.Rows.{first_row, order_by, update_rows}
use agency_os.Db.Store.{Action, gets, or_raise, ◌>>=◌}

pub data LeadStatus : Type 0 where
  new researching contacted meeting_booked proposal_sent won lost : LeadStatus

-- the identity of enum members
abbrev pub status_number : LeadStatus → ℕ
status_number new = 0
status_number researching = 1
status_number contacted = 2
status_number meeting_booked = 3
status_number proposal_sent = 4
status_number won = 5
status_number lost = 6

abbrev pub same_status : LeadStatus → LeadStatus → Bool
same_status a b = status_number a == status_number b

-- the values of the enum
abbrev pub value : LeadStatus → String
value new = "new"
value researching = "researching"
value contacted = "contacted"
value meeting_booked = "meeting_booked"
value proposal_sent = "proposal_sent"
value won = "won"
value lost = "lost"

-- `LeadStatus(text)`
abbrev pub status_of : String → Option LeadStatus
status_of s =
    if str_eq s "new"
    then some new
    else if str_eq s "researching"
    then some researching
    else if str_eq s "contacted"
    then some contacted
    else if str_eq s "meeting_booked"
    then some meeting_booked
    else if str_eq s "proposal_sent"
    then some proposal_sent
    else if str_eq s "won"
    then some won
    else if str_eq s "lost"
    then some lost
    else none

pub data StageLifecycle : Type 0 where
  open_stages won_stages lost_stages : StageLifecycle

abbrev lifecycle_number : StageLifecycle → ℕ
lifecycle_number open_stages = 0
lifecycle_number won_stages = 1
lifecycle_number lost_stages = 2

abbrev pub same_lifecycle : StageLifecycle → StageLifecycle → Bool
same_lifecycle a b = lifecycle_number a == lifecycle_number b

pub record PipelineStage : Type 0 where
  pub id : ℕ
  pub organization_id : ℕ
  pub name : String
  pub lifecycle : StageLifecycle
  pub position : ℕ
  pub is_default : Bool

pub record CloseReason : Type 0 where
  pub id : ℕ
  pub organization_id : ℕ
  pub lifecycle : StageLifecycle
  pub name : String
  pub is_default : Bool

pub record Lead : Type 0 where
  pub id : ℕ
  pub organization_id : ℕ
  pub status : LeadStatus
  pub stage_id : Option ℕ
  pub close_reason_id : Option ℕ
  pub won_at : Option ℕ
  pub lost_at : Option ℕ
  pub deleted_at : Option ℕ

pub data LeadEvent : Type 0 where
  lead_won lead_lost : ℕ → LeadEvent

pub record Board : Type 0 where
  pub stages : List PipelineStage
  pub reasons : List CloseReason
  pub leads : List Lead
  pub activity : List LeadEvent

abbrev pub M : Type 0 → Type 0
M A = Action Board A

abbrev pub of_lifecycle : ℕ → StageLifecycle → PipelineStage → Bool
of_lifecycle organization_id lifecycle s =
    s.organization_id == organization_id && same_lifecycle s.lifecycle lifecycle

abbrev pub by_position : List PipelineStage → List PipelineStage
by_position = order_by (λ s t. leb s.position t.position)

-- PipelineStageRepository
abbrev pub stage_key : ℕ → ℕ → PipelineStage → Bool
stage_key organization_id stage_id s = s.organization_id == organization_id && s.id == stage_id

unfoldable pub get : ℕ → ℕ → List PipelineStage → Option PipelineStage
get organization_id stage_id stages = first_row (stage_key organization_id stage_id) stages

unfoldable pub get_or_404 : ℕ → ℕ → M PipelineStage
get_or_404 organization_id stage_id = do
  found ← gets (λ b. get organization_id stage_id b.stages)
  or_raise found "pipeline.stage_not_found" 404

unfoldable pub list : ℕ → List PipelineStage → List PipelineStage
list organization_id stages =
    by_position (select (λ s. s.organization_id == organization_id) stages)

unfoldable pub list_of : ℕ → StageLifecycle → List PipelineStage → List PipelineStage
list_of organization_id lifecycle stages =
    by_position (select (of_lifecycle organization_id lifecycle) stages)

abbrev pub or_else : Option PipelineStage → Option PipelineStage → Option PipelineStage
or_else none other = other
or_else (some s) other = some s

abbrev pub hinted : Option String → PipelineStage → Bool
hinted none s = false
hinted (some name) s = str_eq s.name name

unfoldable pub get_default :
    ℕ → StageLifecycle → Option String → List PipelineStage → Option PipelineStage
get_default organization_id lifecycle name_hint stages =
    let listed = list_of organization_id lifecycle stages in
    or_else (first_row (hinted name_hint) listed)
      (or_else (first_row (λ s. s.is_default) listed) (first_row (λ s. true) listed))

-- LeadRepository
abbrev pub in_stage : ℕ → ℕ → Lead → Bool
in_stage organization_id stage_id lead =
    lead.organization_id == organization_id
    && is_none lead.deleted_at
    && (elim lead.stage_id [ none ↦ false | some s ↦ s == stage_id ])

unfoldable pub count_in_stage : ℕ → ℕ → List Lead → ℕ
count_in_stage organization_id stage_id leads =
    length (select (in_stage organization_id stage_id) leads)

unfoldable pub bulk_move_stage : ℕ → ℕ → ℕ → List Lead → List Lead
bulk_move_stage organization_id from_stage_id to_stage_id leads =
    update_rows (in_stage organization_id from_stage_id)
      (λ lead. record lead { stage_id = some to_stage_id }) leads
