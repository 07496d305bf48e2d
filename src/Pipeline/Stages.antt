-- ===== src/Pipeline/Stages.antt =====
-- backend/app/services/pipeline_service.py: the defaults, and the management of stages. `ids p`
-- is the id that the flush draws for a default stage at position `p`. A `name` is the text after `strip`.
use agency_os.Prelude.{
  ℕ, zero, suc, ◌+◌, String, Bool, true, false, ◌&&◌, ◌||◌, not, Option, none, some, List, [], ◌∷◌,
  ◌++◌, ◌==◌, leb, select, map, length, contains, if◌then◌else◌,
}
use text.Mathlib.Text.{◌==◌ as str_eq}
use agency_os.Db.Rows.{first_row, update_rows}
use agency_os.Db.Store.{◌>>=◌, ◌>>◌, pure, raise, gets, modify, refuse_if}
use agency_os.Pipeline.Board.{
  StageLifecycle, open_stages, won_stages, lost_stages, same_lifecycle, PipelineStage, Lead, M,
  stage_key, get_or_404, list, list_of, count_in_stage, bulk_move_stage,
}

pub record DefaultStage : Type 0 where
  pub name : String
  pub lifecycle : StageLifecycle
  pub is_default : Bool

abbrev default_stage : String → StageLifecycle → Bool → DefaultStage
default_stage name lifecycle is_default = record {
  name = name;
  lifecycle = lifecycle;
  is_default = is_default;
}

abbrev pub default_stages : List DefaultStage
default_stages =
    default_stage "new" open_stages true
    ∷ default_stage "researching" open_stages false
    ∷ default_stage "contacted" open_stages false
    ∷ default_stage "meeting_booked" open_stages false
    ∷ default_stage "proposal_sent" open_stages false
    ∷ default_stage "won" won_stages true
    ∷ default_stage "lost" lost_stages true
    ∷ []

-- `any(s.name == name and s.lifecycle is lifecycle for s in stages)`
abbrev pub is_there : String → StageLifecycle → List PipelineStage → Bool
is_there name lifecycle [] = false
is_there name lifecycle (s ∷ stages) =
    (str_eq s.name name && same_lifecycle s.lifecycle lifecycle) || is_there name lifecycle stages

-- `max((s.position for s in stages), default=-1) + 1`
abbrev pub next_position : List PipelineStage → ℕ
next_position [] = 0
next_position (s ∷ stages) =
    let rest = next_position stages in if leb rest (s.position + 1) then s.position + 1 else rest

-- the loop over the defaults: `stages` is the listing before it
unfoldable pub missing_stages :
    (ℕ → ℕ) → ℕ → List PipelineStage → ℕ → List DefaultStage → List PipelineStage
missing_stages ids organization_id stages position [] = []
missing_stages ids organization_id stages position (d ∷ defaults) =
    let there = is_there d.name d.lifecycle stages in
    let rest =
      missing_stages ids organization_id stages (if there then position else position + 1)
        defaults in
    if there
    then rest
    else record {
      id = ids position;
      organization_id = organization_id;
      name = d.name;
      lifecycle = d.lifecycle;
      position = position;
      is_default = d.is_default;
    }
      ∷ rest

-- the stages of `_ensure_defaults`; its close reasons are left out
unfoldable pub ensure_defaults : (ℕ → ℕ) → ℕ → M (Unit {0})
unfolding missing_stages
ensure_defaults ids organization_id = modify λ b.
    let stages = list organization_id b.stages in
    record b {
      stages =
          b.stages
          ++ missing_stages ids organization_id stages (next_position stages) default_stages;
    }

abbrev pub or_position : Option ℕ → ℕ → ℕ
or_position none next = next
or_position (some p) next = p

unfoldable pub create_stage : ℕ → ℕ → String → StageLifecycle → Option ℕ → M PipelineStage
create_stage organization_id id name lifecycle position = do
  refuse_if (str_eq name "") "pipeline.stage_name_required" 400
  stages ← gets (λ b. list organization_id b.stages)
  refuse_if (is_there name lifecycle stages) "pipeline.stage_exists" 409
  let stage : PipelineStage = record {
    id = id;
    organization_id = organization_id;
    name = name;
    lifecycle = lifecycle;
    position = or_position position (next_position stages);
    is_default = false;
  }
  modify (λ b. record b { stages = b.stages ++ (stage ∷ []) })
  pure stage

-- the unique constraint of organization, lifecycle and name
abbrev pub is_taken : PipelineStage → String → List PipelineStage → Bool
is_taken stage name [] = false
is_taken stage name (s ∷ stages) =
    (s.organization_id == stage.organization_id
      && same_lifecycle s.lifecycle stage.lifecycle
      && str_eq s.name name
      && not (s.id == stage.id))
    || is_taken stage name stages

abbrev pub or_name : Option String → String → String
or_name none old = old
or_name (some name) old = name

abbrev pub is_blank : Option String → Bool
is_blank none = false
is_blank (some name) = str_eq name ""

unfoldable pub update_stage : ℕ → ℕ → Option String → Option ℕ → M PipelineStage
update_stage organization_id stage_id name position = do
  stage ← get_or_404 organization_id stage_id
  refuse_if (is_blank name) "pipeline.stage_name_required" 400
  let changed = record stage {
    name = or_name name stage.name;
    position = or_position position stage.position;
  }
  broken ← gets (λ b. is_taken stage changed.name b.stages)
  refuse_if broken "IntegrityError" 500
  modify (λ b. record b {
    stages = update_rows (stage_key organization_id stage_id) (λ s. changed) b.stages;
  })
  pure changed

-- `alternatives[0]` and the move of the leads
unfoldable pub move_leads : ℕ → ℕ → ℕ → Option PipelineStage → M (Unit {0})
move_leads organization_id stage_id zero alternative = pure tt
move_leads organization_id stage_id (suc n) none = raise "pipeline.no_alternative_stage" 400
move_leads organization_id stage_id (suc n) (some other) =
    modify λ b. record b { leads = bulk_move_stage organization_id stage_id other.id b.leads }

-- the foreign key of `leads.stage_id` is ON DELETE SET NULL
abbrev pub without_stage : ℕ → Lead → Lead
without_stage stage_id lead = elim lead.stage_id [
  | none ↦ lead
  | some s ↦ if s == stage_id then record lead { stage_id = none } else lead
]

unfoldable pub delete_stage : ℕ → ℕ → M (Unit {0})
unfolding move_leads
delete_stage organization_id stage_id = do
  stage ← get_or_404 organization_id stage_id
  alternatives ←
      gets (λ b.
        select (λ s. not (s.id == stage.id)) (list_of organization_id stage.lifecycle b.stages))
  in_stage ← gets (λ b. count_in_stage organization_id stage.id b.leads)
  move_leads organization_id stage.id in_stage (first_row (λ s. true) alternatives)
  modify (λ b. record b {
    stages = select (λ s. not (s.id == stage.id)) b.stages;
    leads = map (without_stage stage.id) b.leads;
  })

-- `set(stage_ids) == {s.id for s in stages} and len(stage_ids) == len(stages)`
abbrev pub all_among : List ℕ → List ℕ → Bool
all_among ids [] = true
all_among ids (x ∷ xs) = contains ids x && all_among ids xs

abbrev pub same_set : List ℕ → List ℕ → Bool
same_set xs ys = all_among xs ys && all_among ys xs

abbrev pub ids_of : List PipelineStage → List ℕ
ids_of stages = map (λ s. s.id) stages

-- the loop over `enumerate(stage_ids)`, from position `n` on
unfoldable pub number_from : ℕ → ℕ → List ℕ → List PipelineStage → List PipelineStage
number_from organization_id n [] stages = stages
number_from organization_id n (i ∷ ids) stages = number_from organization_id (n + 1) ids (
    update_rows (λ s. s.organization_id == organization_id && s.id == i)
      (λ s. record s { position = n }) stages)

unfoldable pub reorder_stages : ℕ → List ℕ → M (List PipelineStage)
unfolding number_from
reorder_stages organization_id stage_ids = do
  stages ← gets (λ b. list organization_id b.stages)
  refuse_if (not (same_set stage_ids (ids_of stages) && length stage_ids == length stages))
      "pipeline.stage_reorder_mismatch" 400
  modify (λ b. record b { stages = number_from organization_id 0 stage_ids b.stages })
  gets (λ b. list organization_id b.stages)
