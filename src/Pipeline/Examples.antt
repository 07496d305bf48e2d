-- ===== src/Pipeline/Examples.antt =====
-- Tests of the pipeline: an empty board, and one with a stage of its own.
use agency_os.Prelude.{ℕ, ◌+◌, ◌≡◌, refl, true, false, none, some, [], ◌∷◌, length}
use agency_os.Db.Rows.{order_by, insert_row}
use agency_os.Db.Session.{ok}
use agency_os.Pipeline.Board.{LeadStatus, PipelineStage, open_stages, Lead, Board, list}
use agency_os.Pipeline.Order.{Ordered, reorder_stages-Ordered}
use agency_os.Pipeline.Placement.{Aligned, Lands, reconcile-Aligned}
use agency_os.Pipeline.Reconcile.{reconcile}
use agency_os.Pipeline.Removal.{Removes, delete_stage-Removes}
use agency_os.Pipeline.Stages.{
  ensure_defaults, missing_stages, delete_stage, reorder_stages, number_from,
}
use agency_os.Pipeline.Statuses.{status_round_trip}

abbrev contract : PipelineStage
contract = record {
  id = 50;
  organization_id = 1;
  name = "Contract review";
  lifecycle = open_stages;
  position = 0;
  is_default = false;
}

abbrev lead : Lead
lead = record {
  id = 7;
  organization_id = 1;
  status = LeadStatus.new;
  stage_id = none;
  close_reason_id = none;
  won_at = none;
  lost_at = none;
  deleted_at = none;
}

abbrev empty : Board
empty = record { stages = []; reasons = []; leads = lead ∷ []; activity = [] }

abbrev board : Board
board = record {
  stages = contract ∷ [];
  reasons = [];
  leads = record lead { stage_id = some 50 } ∷ [];
  activity = [];
}

abbrev ids : ℕ → ℕ
ids p = 100 + p

seven_defaults : length (ensure_defaults ids 1 empty).1.stages ≡ 7
unfolding ensure_defaults missing_stages list order_by insert_row
seven_defaults = refl

swapped :
    (reorder_stages 1 (51 ∷ 50 ∷ []) (record board {
      stages = contract ∷ record contract { id = 51; name = "Legal"; position = 1 } ∷ [];
    })).0
    ≡ ok (
        record contract { id = 51; name = "Legal"; position = 0 }
        ∷ record contract { position = 1 }
        ∷ [])
unfolding reorder_stages number_from list order_by insert_row
swapped = refl

reconcile-Aligned_example :
    Lands
      (λ l b. Aligned 1 b.stages l)
      (reconcile ids 900 1 lead (some LeadStatus.won) none none true empty)
reconcile-Aligned_example =
    reconcile-Aligned ids 900 1 lead (some LeadStatus.won) none none true empty refl

status_round_trip_example :
    (l : Lead) × ((reconcile ids 900 1 lead (some LeadStatus.meeting_booked) none none true empty).0
      ≡ ok l)
    × (l.status ≡ LeadStatus.meeting_booked)
status_round_trip_example =
    status_round_trip ids 900 1 lead LeadStatus.meeting_booked true empty refl

delete_stage-Removes_example : Removes 1 50 board (delete_stage 1 50 board)
delete_stage-Removes_example = delete_stage-Removes 1 50 board

reorder_stages-Ordered_example : Ordered 1 (50 ∷ []) board (reorder_stages 1 (50 ∷ []) board)
reorder_stages-Ordered_example = reorder_stages-Ordered 1 (50 ∷ []) board
