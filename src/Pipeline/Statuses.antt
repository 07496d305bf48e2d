-- ===== src/Pipeline/Statuses.antt =====
-- pipeline_service.py, `reconcile` of a bare change of status, as lead_service.py calls it.
use agency_os.Prelude.{ℕ, ◌≡◌, refl, ◌∙◌, Bool, true, false, Option, none, some, List, arith}
use text.Mathlib.Text.{◌==◌ as str_eq}
use text.Mathlib.TextEquality.{eq_iff}
use agency_os.Db.Session.{ok}
use agency_os.Db.Search.{here, there, any}
use agency_os.Pipeline.Board.{
  LeadStatus, new, researching, contacted, meeting_booked, proposal_sent, won, lost, value,
  status_of, StageLifecycle, open_stages, won_stages, lost_stages, same_lifecycle, PipelineStage,
  Lead, Board, get_default,
}
use agency_os.Pipeline.Found.{get_default-named, get_default-some, get_default-lifecycle}
use agency_os.Pipeline.Placement.{Seeded-any, stamped-stage}
use agency_os.Pipeline.Reconcile.{
  bucket_of, open_or, open_status_for, with_status, stage_at, hint_of, pick_current, pick_stage,
  driven, placed, stamped, with_close_reason, log_outcome, reconcile,
}
use agency_os.Pipeline.Seeded.{is_named, Seeded, ensure_defaults-Seeded}
use agency_os.Pipeline.Stages.{ensure_defaults}

-- the current stage is of the bucket
abbrev pub is_of : StageLifecycle → Option PipelineStage → Bool
is_of l none = false
is_of l (some c) = same_lifecycle c.lifecycle l

driven-named :
    (s : PipelineStage) (status previous : LeadStatus)
    → s.lifecycle ≡ open_stages
    → bucket_of status ≡ open_stages
    → str_eq s.name (value status) ≡ true
    → driven s previous ≡ status
unfolding open_status_for
driven-named s status previous l b n =
    let e : s.name ≡ value status = (eq_iff s.name (value status)).0 n in
    rw (l, e) (named status previous b)
  where
    named :
        (status previous : LeadStatus)
        → bucket_of status ≡ open_stages
        → open_or (status_of (value status)) previous ≡ status
    named new previous b = refl
    named researching previous b = refl
    named contacted previous b = refl
    named meeting_booked previous b = refl
    named proposal_sent previous b = refl
    named won previous b = cc
    named lost previous b = cc

Seeded-is_named :
    (o : ℕ) (status : LeadStatus) (stages : List PipelineStage)
    → Seeded o stages
    → bucket_of status ≡ open_stages
    → any (is_named o open_stages (value status)) stages ≡ true
Seeded-is_named o new stages h b = h _ here
Seeded-is_named o researching stages h b = h _ (there here)
Seeded-is_named o contacted stages h b = h _ (there (there here))
Seeded-is_named o meeting_booked stages h b = h _ (there (there (there here)))
Seeded-is_named o proposal_sent stages h b = h _ (there (there (there (there here))))
Seeded-is_named o won stages h b = absurd (let e : ⊥ = cc in e)
Seeded-is_named o lost stages h b = absurd (let e : ⊥ = cc in e)

open-driven :
    (o : ℕ) (status previous : LeadStatus) (stages : List PipelineStage)
    → Seeded o stages
    → bucket_of status ≡ open_stages
    → (s : PipelineStage) × (get_default o open_stages (some (value status)) stages ≡ some s)
      × (driven s previous ≡ status)
open-driven o status previous stages h b =
    let (s, e, n) =
      get_default-named o open_stages stages (value status) (Seeded-is_named o status stages h b) in
    let l = get_default-lifecycle o open_stages stages (some (value status)) s e in
    (s, e, driven-named s status previous l b n)

driven-won :
    (s : PipelineStage) (previous : LeadStatus) → s.lifecycle ≡ won_stages → driven s previous ≡ won
driven-won s previous h = ground arith

driven-lost :
    (s : PipelineStage) (previous : LeadStatus)
    → s.lifecycle ≡ lost_stages
    → driven s previous ≡ lost
driven-lost s previous h = ground arith

get_default-driven :
    (o : ℕ) (status previous : LeadStatus) (stages : List PipelineStage)
    → Seeded o stages
    → (s : PipelineStage) × (get_default o (bucket_of status) (hint_of status) stages ≡ some s)
      × (driven s previous ≡ status)
get_default-driven o won previous stages h =
    let (s, e) = get_default-some o won_stages stages none (Seeded-any o stages won_stages h) in
    let l = get_default-lifecycle o won_stages stages none s e in (s, e, driven-won s previous l)
get_default-driven o lost previous stages h =
    let (s, e) = get_default-some o lost_stages stages none (Seeded-any o stages lost_stages h) in
    let l = get_default-lifecycle o lost_stages stages none s e in (s, e, driven-lost s previous l)
get_default-driven o new previous stages h = open-driven o new previous stages h refl
get_default-driven o researching previous stages h =
    open-driven o researching previous stages h refl
get_default-driven o contacted previous stages h = open-driven o contacted previous stages h refl
get_default-driven o meeting_booked previous stages h =
    open-driven o meeting_booked previous stages h refl
get_default-driven o proposal_sent previous stages h =
    open-driven o proposal_sent previous stages h refl

driven-open :
    (s : PipelineStage) (previous : LeadStatus)
    → s.lifecycle ≡ open_stages
    → driven s previous ≡ open_status_for s previous
driven-open s previous h = ground arith

module _ (ids : ℕ → ℕ) (now o : ℕ) (lead : Lead) (status : LeadStatus) (emit : Bool)
    (b : Board) where
  -- the stage that the lead stands on when its status is changed
  abbrev current : Option PipelineStage
  current = stage_at o lead.stage_id (ensure_defaults ids o b).1.stages

  reconcile-picked :
      (s : PipelineStage)
      → pick_current o
          (with_status (some status) lead)
          true
          (ensure_defaults ids o b).1.stages
          current
        ≡ some s
      → (l : Lead) × ((reconcile ids now o lead (some status) none none emit b).0 ≡ ok l)
        × (l.stage_id ≡ some s.id)
        × (l.status ≡ driven s lead.status)
  unfolding reconcile pick_stage with_close_reason log_outcome ensure_defaults
  reconcile-picked s e =
      let l = placed lead.status (some s) (with_status (some status) lead) in
      let (at, st) = stamped-stage now lead.status l in
      (stamped now lead.status l, rw e refl, at, st)

  elsewhere :
      (found : Option PipelineStage)
      → is_of (bucket_of status) found ≡ false
      → pick_current o
          (with_status (some status) lead)
          true
          (ensure_defaults ids o b).1.stages
          found
        ≡ get_default o (bucket_of status) (hint_of status) (ensure_defaults ids o b).1.stages
  unfolding pick_current
  elsewhere none h = refl
  elsewhere (some c) h = rw h refl

  -- A lead whose stage is of another bucket than the status that is asked for, or that stands on no
  -- stage, gets that status: the change always succeeds, and the stage that is looked up by the status
  -- gives the status back.
  pub status_round_trip :
      is_of (bucket_of status) current ≡ false
      → (l : Lead) × ((reconcile ids now o lead (some status) none none emit b).0 ≡ ok l)
        × (l.status ≡ status)
  unfolding pick_current
  status_round_trip h =
      let stages = (ensure_defaults ids o b).1.stages in
      let (s, e, d) =
        get_default-driven o status lead.status stages (ensure_defaults-Seeded ids o b) in
      let (l, r, at, st) = reconcile-picked s (elsewhere current h ∙ e) in (l, r, st ∙ d)

  -- A lead on an open stage keeps that stage when another open status is asked for, and its new status
  -- is the one that the stage gives to the former status, whatever status is asked for. The call succeeds.
  pub open_status-lost :
      (c : PipelineStage)
      → current ≡ some c
      → c.lifecycle ≡ open_stages
      → bucket_of status ≡ open_stages
      → (l : Lead) × ((reconcile ids now o lead (some status) none none emit b).0 ≡ ok l)
        × (l.stage_id ≡ some c.id)
        × (l.status ≡ open_status_for c lead.status)
  unfolding pick_current
  open_status-lost c e l h =
      let stays : pick_current o (with_status (some status) lead) true
            (ensure_defaults ids o b).1.stages current
          ≡ some c =
        rw (e, l, h) refl in
      let (r, k, at, st) = reconcile-picked c stays in (r, k, at, st ∙ driven-open c lead.status l)
