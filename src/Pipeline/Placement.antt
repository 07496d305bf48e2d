-- ===== src/Pipeline/Placement.antt =====
-- pipeline_service.py, `reconcile`: the stage, the status and the timestamps that it leaves.
use agency_os.Prelude.{
  ℕ, ◌≡◌, refl, ap, ◌∙◌, String, Bool, true, false, ◌&&◌, ◌||◌, Option, none, some, List, ◌==◌,
  is_some, is_none, if◌then◌else◌, arith, Bool-cases, inl, inr,
}
use text.Mathlib.Text.{◌==◌ as str_eq}
use agency_os.Db.Session.{Result, ok, err}
use agency_os.Db.Store.{and_then, ◌>>=◌, ◌>>◌, pure, or_raise}
use agency_os.Db.Search.{any, here, there, any_weaken}
use agency_os.Pipeline.Board.{
  LeadStatus, won, lost, same_status, StageLifecycle, open_stages, won_stages, lost_stages,
  same_lifecycle, PipelineStage, CloseReason, Lead, Board, M, get, get_or_404, get_default,
  of_lifecycle,
}
use agency_os.Pipeline.Found.{Stands, get-Stands, get_default-Stands, get_default-some}
use agency_os.Pipeline.Reconcile.{
  bucket_of, open_status_for, with_status, stage_at, pick_current, pick_stage, driven, placed,
  stamped, get_reason, closed_by, with_close_reason, log_outcome, reconcile,
}
use agency_os.Pipeline.Seeded.{Seeded, ensure_defaults-Seeded}
use agency_os.Pipeline.Stages.{ensure_defaults}

pub Seeded-any :
    (o : ℕ) (stages : List PipelineStage) (l : StageLifecycle)
    → Seeded o stages
    → any (of_lifecycle o l) stages ≡ true
Seeded-any o stages open_stages h =
    any_weaken (of_lifecycle o open_stages) (λ s. str_eq s.name "new") stages (h _ here)
Seeded-any o stages won_stages h =
    any_weaken (of_lifecycle o won_stages) (λ s. str_eq s.name "won") stages
      (h _ (there (there (there (there (there here))))))
Seeded-any o stages lost_stages h =
    any_weaken (of_lifecycle o lost_stages) (λ s. str_eq s.name "lost") stages
      (h _ (there (there (there (there (there (there here)))))))

-- a lookup that returns a stage of the organization on the table
abbrev Picks : ℕ → List PipelineStage → Option PipelineStage → Type 0
Picks o stages found = (s : PipelineStage) × (found ≡ some s) × Stands o stages s

get_default-Picks :
    (o : ℕ) (l : StageLifecycle) (hint : Option String) (stages : List PipelineStage)
    → Seeded o stages
    → Picks o stages (get_default o l hint stages)
get_default-Picks o l hint stages h =
    let (s, e) = get_default-some o l stages hint (Seeded-any o stages l h) in
    (s, e, get_default-Stands o l stages hint s e)

pick_current-Picks :
    (o : ℕ) (lead : Lead) (changed : Bool) (stages : List PipelineStage)
    (found : Option PipelineStage)
    → Seeded o stages
    → ((s : PipelineStage) → found ≡ some s → Stands o stages s)
    → Picks o stages (pick_current o lead changed stages found)
unfolding pick_current
pick_current-Picks o lead true stages none h g = get_default-Picks o _ _ stages h
pick_current-Picks o lead true stages (some c) h g =
    elim (Bool-cases (same_lifecycle c.lifecycle (bucket_of lead.status))) [
      | inl same ↦ rw same (c, refl, g c refl)
      | inr other ↦ rw other (get_default-Picks o _ _ stages h)
    ]
pick_current-Picks o lead false stages none h g = get_default-Picks o _ _ stages h
pick_current-Picks o lead false stages (some c) h g = (c, refl, g c refl)

driven-bucket :
    (s : PipelineStage) (previous : LeadStatus) → bucket_of (driven s previous) ≡ s.lifecycle
unfolding open_status_for
driven-bucket s previous = ground arith

-- the timestamps that go with a status
abbrev pub dated : LeadStatus → Option ℕ → Option ℕ → Bool
dated status won_at lost_at =
    if same_status status won
    then is_some won_at && is_none lost_at
    else if same_status status lost
    then is_none won_at && is_some lost_at
    else is_none won_at && is_none lost_at

stamped-dated :
    (now : ℕ) (previous : LeadStatus) (lead : Lead)
    → dated previous lead.won_at lead.lost_at ≡ true
    → (let l = stamped now previous lead in dated l.status l.won_at l.lost_at ≡ true)
unfolding stamped
stamped-dated now previous lead h = ground arith

pub stamped-stage :
    (now : ℕ) (previous : LeadStatus) (lead : Lead)
    → ((stamped now previous lead).stage_id ≡ lead.stage_id)
      × ((stamped now previous lead).status ≡ lead.status)
unfolding stamped
stamped-stage now previous lead = (ground arith, ground arith)

-- the lead stands on a stage of its organization that is on the board and of the bucket of its
-- status, and its timestamps go with the status
pub record Aligned (o : ℕ) (stages : List PipelineStage) (lead : Lead) : Type 0 where
  pub stage : PipelineStage
  pub placed_on : lead.stage_id ≡ some stage.id
  pub stands : Stands o stages stage
  pub bucket : bucket_of lead.status ≡ stage.lifecycle
  pub dates : dated lead.status lead.won_at lead.lost_at ≡ true

stamped-Aligned :
    (o now : ℕ) (stages : List PipelineStage) (previous : LeadStatus) (lead : Lead)
    (s : PipelineStage)
    → Stands o stages s
    → dated previous lead.won_at lead.lost_at ≡ true
    → Aligned o stages (stamped now previous (placed previous (some s) lead))
stamped-Aligned o now stages previous lead s st d =
    let l = placed previous (some s) lead in
    let (e, f) = stamped-stage now previous l in
    record {
      stage = s;
      placed_on = e;
      stands = st;
      bucket = ap bucket_of f ∙ driven-bucket s previous;
      dates = stamped-dated now previous l d;
    }

-- a call that returns a lead as `P` says, or refuses with 404 or 400
abbrev pub Lands : (Lead → Board → Type 0) → Result Lead × Board → Type 0
Lands P (ok lead, b) = P lead b
Lands P (err e, b) = (e.status_code == 404 || e.status_code == 400) ≡ true

closed_by-Aligned :
    (o : ℕ) (found : Option CloseReason) (lead : Lead) (b : Board)
    → Aligned o b.stages lead
    → Lands (λ l b'. Aligned o b'.stages l) (closed_by found lead b)
unfolding closed_by
closed_by-Aligned o none lead b a = refl
closed_by-Aligned o (some r) lead b a =
    elim (Bool-cases (same_lifecycle (bucket_of lead.status) r.lifecycle)) [
      | inl h ↦ rw h (record {
        stage = a.stage;
        placed_on = a.placed_on;
        stands = a.stands;
        bucket = a.bucket;
        dates = a.dates;
      })
      | inr h ↦ rw h refl
    ]

with_close_reason-Aligned :
    (o : ℕ) (close : Option ℕ) (lead : Lead) (b : Board)
    → Aligned o b.stages lead
    → Lands (λ l b'. Aligned o b'.stages l) (with_close_reason o close lead b)
unfolding with_close_reason
with_close_reason-Aligned o none lead b a = a
with_close_reason-Aligned o (some i) lead b a =
    closed_by-Aligned o (get_reason o i b.reasons) lead b a

logged :
    (o : ℕ) (emit : Bool) (previous : LeadStatus) (r : Result Lead) (b : Board)
    → Lands (λ l b'. Aligned o b'.stages l) (r, b)
    → Lands
        (λ l b'. Aligned o b'.stages l)
        (and_then r (λ settled. log_outcome emit previous settled >> pure settled) b)
unfolding log_outcome
logged o emit previous (ok l) b h = h
logged o emit previous (err e) b h = h

with_status-dated :
    (status : Option LeadStatus) (lead : Lead)
    → ((with_status status lead).won_at ≡ lead.won_at)
      × ((with_status status lead).lost_at ≡ lead.lost_at)
with_status-dated none lead = (refl, refl)
with_status-dated (some s) lead = (refl, refl)

-- `reconcile` from the stage that it has picked
abbrev settling : ℕ → ℕ → LeadStatus → Lead → Option ℕ → Bool → Option PipelineStage → M Lead
settling o now previous lead close emit stage =
    with_close_reason o close (stamped now previous (placed previous stage lead)) >>= λ settled.
    log_outcome emit previous settled >> pure settled

settling-Aligned :
    (o now : ℕ) (previous : LeadStatus) (lead : Lead) (close : Option ℕ) (emit : Bool)
    (found : Option PipelineStage) (b : Board)
    → Picks o b.stages found
    → dated previous lead.won_at lead.lost_at ≡ true
    → Lands (λ l b'. Aligned o b'.stages l) (settling o now previous lead close emit found b)
settling-Aligned o now previous lead close emit found b (s, e, st) d = rw e (
    logged o emit previous _ _
      (with_close_reason-Aligned o close _ b (stamped-Aligned o now b.stages previous lead s st d)))

chosen-Aligned :
    (o now : ℕ) (previous : LeadStatus) (lead : Lead) (close : Option ℕ) (emit : Bool)
    (found : Option PipelineStage) (b : Board)
    → ((s : PipelineStage) → found ≡ some s → Stands o b.stages s)
    → dated previous lead.won_at lead.lost_at ≡ true
    → Lands
        (λ l b'. Aligned o b'.stages l)
        (((or_raise found "pipeline.stage_not_found" 404 >>= λ s. pure (some s))
            >>= settling o now previous lead close emit)
          b)
chosen-Aligned o now previous lead close emit none b g d = refl
chosen-Aligned o now previous lead close emit (some s) b g d =
    settling-Aligned o now previous lead close emit (some s) b (s, refl, g s refl) d

stage_at-Stands :
    (o : ℕ) (i : Option ℕ) (stages : List PipelineStage) (s : PipelineStage)
    → stage_at o i stages ≡ some s
    → Stands o stages s
stage_at-Stands o none stages s h = absurd (let e : ⊥ = cc in e)
stage_at-Stands o (some i) stages s h = get-Stands o i stages s h

-- A reconciled lead whose timestamps went with its status stands on a stage of its organization that is
-- on the board, has a status of the bucket of that stage, and has a time of winning exactly if won
-- and a time of losing exactly if lost; otherwise the call is refused with 404 or 400. So whatever the
-- stages were before, which may be none: the defaults are added first.
pub reconcile-Aligned :
    (ids : ℕ → ℕ) (now o : ℕ) (lead : Lead) (status : Option LeadStatus) (stage_id close : Option ℕ)
    (emit : Bool) (b : Board)
    → dated lead.status lead.won_at lead.lost_at ≡ true
    → Lands (λ l b'. Aligned o b'.stages l) (reconcile ids now o lead status stage_id close emit b)
unfolding reconcile pick_stage get_or_404 ensure_defaults
reconcile-Aligned ids now o lead status none close emit b d =
    let b' = (ensure_defaults ids o b).1 in
    let l = with_status status lead in
    let (e, f) = with_status-dated status lead in
    settling-Aligned o now lead.status l close emit _ b'
      (pick_current-Picks o l (is_some status) b'.stages (stage_at o l.stage_id b'.stages)
        (ensure_defaults-Seeded ids o b) (stage_at-Stands o l.stage_id b'.stages))
      (rw (e, f) d)
reconcile-Aligned ids now o lead status (some i) close emit b d =
    let b' = (ensure_defaults ids o b).1 in
    let l = with_status status lead in
    let (e, f) = with_status-dated status lead in
    chosen-Aligned o now lead.status l close emit (get o i b'.stages) b' (get-Stands o i b'.stages)
      (rw (e, f) d)
