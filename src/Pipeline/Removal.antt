-- ===== src/Pipeline/Removal.antt =====
-- pipeline_service.py, `delete_stage`.
use agency_os.Prelude.{
  ℕ, zero, suc, ◌≡◌, refl, ap, Bool, true, false, not, Option, none, some, List, [], ◌∷◌, ◌==◌, leb,
  select, map, if◌then◌else◌, arith, Bool-cases, inl, inr, All,
}
use agency_os.Db.Rows.{first_row, Rowwise, no_rows, row}
use agency_os.Db.Search.{Has, first_row-All, All-select, All-order_by}
use agency_os.Db.Session.{Result, ok, err}
use agency_os.Db.Store.{◌>>=◌, ◌>>◌, gets, modify, or_raise}
use agency_os.Pipeline.Board.{
  PipelineStage, Lead, Board, M, of_lifecycle, get, get_or_404, list_of, in_stage, count_in_stage,
  bulk_move_stage,
}
use agency_os.Pipeline.Stages.{move_leads, without_stage, delete_stage}

abbrev pub stands_on : ℕ → Lead → Bool
stands_on i lead = elim lead.stage_id [ none ↦ false | some s ↦ s == i ]

-- where a lead stands after the stage `i` is gone, of which the leads not deleted go to `other`
abbrev pub home : ℕ → ℕ → Option ℕ → Lead → Option ℕ
home o i other l = if stands_on i l then (if in_stage o i l then other else none) else l.stage_id

-- a lead before and after
pub record Cleared (o i : ℕ) (other : Option ℕ) (l l' : Lead) : Type 0 where
  pub off : stands_on i l' ≡ false
  pub at_home : l'.stage_id ≡ home o i other l
  pub same_status : l'.status ≡ l.status
  pub same_dates : (l'.won_at ≡ l.won_at) × (l'.lost_at ≡ l.lost_at)
  pub same_id : l'.id ≡ l.id

-- the stage that takes the leads is another one of the lifecycle, and there is one if there are leads
abbrev pub Offered : ℕ → PipelineStage → Board → Option ℕ → Type 0
Offered o stage b none = count_in_stage o stage.id b.leads ≡ 0
Offered o stage b (some k) =
    (s : PipelineStage) × Has s b.stages × (of_lifecycle o stage.lifecycle s ≡ true) × (s.id ≡ k)

-- a call that has removed the stage from the board and from all leads, or that is refused and changes nothing
abbrev pub Removes : ℕ → ℕ → Board → Result (Unit {0}) × Board → Type 0
Removes o i b (ok u, b') =
    (stage : PipelineStage) × (get o i b.stages ≡ some stage)
    × All (λ s. (s.id == stage.id) ≡ false) b'.stages
    × (b'.stages ≡ select (λ s. not (s.id == stage.id)) b.stages)
    × ((b'.reasons ≡ b.reasons) × (b'.activity ≡ b.activity))
    × (other : Option ℕ) × Offered o stage b other
    × Rowwise (Cleared o stage.id other) b.leads b'.leads
Removes o i b (err e, b') = b' ≡ b

without_stage-Cleared : (o i : ℕ) (l : Lead) → Cleared o i none l (without_stage i l)
without_stage-Cleared o i l = record {
  off = ground arith;
  at_home = ground arith;
  same_status = ground arith;
  same_dates = (ground arith, ground arith);
  same_id = ground arith;
}

abbrev sent : ℕ → ℕ → ℕ → Lead → Lead
sent o i other l =
    without_stage i (if in_stage o i l then record l { stage_id = some other } else l)

sent-Cleared :
    (o i other : ℕ) (l : Lead)
    → (other == i) ≡ false
    → Cleared o i (some other) l (sent o i other l)
sent-Cleared o i other l h = record {
  off = ground arith;
  at_home = ground arith;
  same_status = ground arith;
  same_dates = (ground arith, ground arith);
  same_id = ground arith;
}

map-Cleared :
    (o i : ℕ) (other : Option ℕ) (f : Lead → Lead)
    → ((l : Lead) → Cleared o i other l (f l))
    → (ls : List Lead) → Rowwise (Cleared o i other) ls (map f ls)
map-Cleared o i other f h [] = no_rows
map-Cleared o i other f h (l ∷ ls) = row (h l) (map-Cleared o i other f h ls)

select-All :
    (i : ℕ) (ss : List PipelineStage)
    → All (λ s. (s.id == i) ≡ false) (select (λ s. not (s.id == i)) ss)
select-All i [] = tt
select-All i (s ∷ ss) = elim (Bool-cases (s.id == i)) [
  | inl h ↦ rw h (select-All i ss)
  | inr h ↦ rw h (h, select-All i ss)
]

map-map : (f g : Lead → Lead) (ls : List Lead) → map f (map g ls) ≡ map (λ l. f (g l)) ls
map-map f g [] = refl
map-map f g (l ∷ ls) = ap (λ r. f (g l) ∷ r) (map-map f g ls)

-- the alternatives: the other stages of the lifecycle
abbrev alternatives : ℕ → PipelineStage → Board → List PipelineStage
alternatives o stage b = select (λ s. not (s.id == stage.id)) (list_of o stage.lifecycle b.stages)

record Alternative (o : ℕ) (stage : PipelineStage) (b : Board) (s : PipelineStage) : Type 0 where
  on_table : Has s b.stages
  right : of_lifecycle o stage.lifecycle s ≡ true
  other : (s.id == stage.id) ≡ false

record Listed (o : ℕ) (stage : PipelineStage) (b : Board) (s : PipelineStage) : Type 0 where
  on_table : Has s b.stages
  right : of_lifecycle o stage.lifecycle s ≡ true

narrowed :
    (o : ℕ) (stage : PipelineStage) (b : Board) (ss : List PipelineStage)
    → All (Listed o stage b) ss
    → All (Alternative o stage b) (select (λ s. not (s.id == stage.id)) ss)
narrowed o stage b [] a = tt
narrowed o stage b (s ∷ ss) (l, a) = elim (Bool-cases (s.id == stage.id)) [
  | inl h ↦ rw h (narrowed o stage b ss a)
  | inr h ↦
      rw h (record { on_table = l.on_table; right = l.right; other = h }, narrowed o stage b ss a)
]

alternatives-All :
    (o : ℕ) (stage : PipelineStage) (b : Board)
    → All (Alternative o stage b) (alternatives o stage b)
unfolding list_of
alternatives-All o stage b = narrowed o stage b _ (
    All-order_by (Listed o stage b) (λ s t. leb s.position t.position)
      (select (of_lifecycle o stage.lifecycle) b.stages)
      (All-select (Listed o stage b) (of_lifecycle o stage.lifecycle) b.stages
        (λ s r m. record { on_table = m; right = r })))

first_row-Alternative :
    (o : ℕ) (stage : PipelineStage) (b : Board) (s : PipelineStage)
    → first_row (λ s. true) (alternatives o stage b) ≡ some s
    → Alternative o stage b s
first_row-Alternative o stage b s h =
    first_row-All (Alternative o stage b) (λ s. true) s (alternatives o stage b)
      (alternatives-All o stage b) h

removing :
    (o i n : ℕ) (stage : PipelineStage) (other : Option PipelineStage) (b : Board)
    → get o i b.stages ≡ some stage
    → count_in_stage o stage.id b.leads ≡ n
    → ((s : PipelineStage) → other ≡ some s → Alternative o stage b s)
    → Removes o i b (
        (move_leads o stage.id n other
            >> modify (λ b. record b {
              stages = select (λ s. not (s.id == stage.id)) b.stages;
              leads = map (without_stage stage.id) b.leads;
            }))
          b)
unfolding move_leads bulk_move_stage
removing o i zero stage other b g c h = (
  stage,
  g,
  select-All stage.id b.stages,
  refl,
  (refl, refl),
  none,
  c,
  map-Cleared o stage.id none (without_stage stage.id) (without_stage-Cleared o stage.id) b.leads,
)
removing o i (suc n) stage none b g c h = refl
removing o i (suc n) stage (some s) b g c h =
    let a = h s refl in
    (
      stage,
      g,
      select-All stage.id b.stages,
      refl,
      (refl, refl),
      some s.id,
      (s, a.on_table, a.right, refl),
      rw (map-map (without_stage stage.id) _ b.leads) (
          map-Cleared o stage.id (some s.id) (sent o stage.id s.id)
            (λ l. sent-Cleared o stage.id s.id l a.other) b.leads),
    )

-- `delete_stage` from the lookup of the stage
abbrev deleting : ℕ → Option PipelineStage → M (Unit {0})
deleting o found = or_raise found "pipeline.stage_not_found" 404 >>= λ stage.
    gets (λ b. alternatives o stage b) >>= λ others.
    gets (λ b. count_in_stage o stage.id b.leads) >>= λ n.
    move_leads o stage.id n (first_row (λ s. true) others)
    >> modify (λ b. record b {
      stages = select (λ s. not (s.id == stage.id)) b.stages;
      leads = map (without_stage stage.id) b.leads;
    })

deleting-Removes :
    (o i : ℕ) (found : Option PipelineStage) (b : Board)
    → get o i b.stages ≡ found
    → Removes o i b (deleting o found b)
deleting-Removes o i none b h = refl
deleting-Removes o i (some stage) b h =
    removing o i (count_in_stage o stage.id b.leads) stage _ b h refl
      (first_row-Alternative o stage b)

-- Deleting a stage removes it from the board and from every lead, and leaves the other stages on the
-- board as they are and in their order: the leads that are not deleted go
-- to another stage of the same lifecycle on the board, the deleted ones to none, and every other lead
-- stays where it is; no status and no timestamp changes. Otherwise the
-- call is refused and the board is as it was.
pub delete_stage-Removes : (o i : ℕ) (b : Board) → Removes o i b (delete_stage o i b)
unfolding delete_stage get_or_404
delete_stage-Removes o i b = deleting-Removes o i (get o i b.stages) b refl
