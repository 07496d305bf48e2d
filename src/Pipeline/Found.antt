-- ===== src/Pipeline/Found.antt =====
-- repositories/pipeline.py: what `get` and `get_default` return.
use agency_os.Prelude.{
  ℕ, ◌≡◌, refl, ◌∙◌, String, Bool, true, ◌&&◌, Option, none, some, List, ◌==◌, leb, select, is_some,
  arith, All,
}
use text.Mathlib.Text.{◌==◌ as str_eq}
use agency_os.Db.Rows.{first_row}
use agency_os.Db.Search.{
  any, Has, first_row-any, any-order_by, any-select, any-same, first_row-fits, first_row-Has,
  first_row-All, All-select, All-order_by,
}
use agency_os.Pipeline.Board.{
  StageLifecycle, PipelineStage, same_lifecycle, of_lifecycle, list_of, get, stage_key, get_default,
  or_else, hinted,
}
use agency_os.Pipeline.Seeded.{is_named}

-- a stage of the organization on the table
pub record Stands (o : ℕ) (stages : List PipelineStage) (s : PipelineStage) : Type 0 where
  pub on_table : Has s stages
  pub own : (s.organization_id == o) ≡ true

list_of-Stands :
    (o : ℕ) (l : StageLifecycle) (stages : List PipelineStage)
    → All (Stands o stages) (list_of o l stages)
unfolding list_of
list_of-Stands o l stages =
    All-order_by (Stands o stages) (λ s t. leb s.position t.position)
      (select (of_lifecycle o l) stages)
      (All-select (Stands o stages) (of_lifecycle o l) stages
        (λ s h m. record { on_table = m; own = ground arith }))

pub get-Stands :
    (o i : ℕ) (stages : List PipelineStage) (s : PipelineStage)
    → get o i stages ≡ some s
    → Stands o stages s
unfolding get
get-Stands o i stages s h =
    let k = first_row-fits (stage_key o i) s stages h in
    record { on_table = first_row-Has (stage_key o i) s stages h; own = ground arith }

same_lifecycle-eq : (a b : StageLifecycle) → same_lifecycle a b ≡ true → a ≡ b
same_lifecycle-eq a b h = ground arith

and_right : (a b : Bool) → (a && b) ≡ true → b ≡ true
and_right a b h = ground arith

or_else-elim :
    (P : PipelineStage → Type 0) (a b : Option PipelineStage) (s : PipelineStage)
    → (a ≡ some s → P s)
    → (b ≡ some s → P s)
    → or_else a b ≡ some s
    → P s
or_else-elim P none b s f g h = g h
or_else-elim P (some a) b s f g h = f h

is_some-some : (a : Option PipelineStage) → is_some a ≡ true → (s : PipelineStage) × (a ≡ some s)
is_some-some none h = absurd (let e : ⊥ = cc in e)
is_some-some (some s) h = (s, refl)

is_some-or_else : (a b : Option PipelineStage) → is_some b ≡ true → is_some (or_else a b) ≡ true
is_some-or_else none b h = h
is_some-or_else (some a) b h = refl

module _ (o : ℕ) (l : StageLifecycle) (stages : List PipelineStage) where
  -- what holds of the listed stages holds of the default
  get_default-All :
      (P : PipelineStage → Type 0) (hint : Option String) (s : PipelineStage)
      → All P (list_of o l stages)
      → get_default o l hint stages ≡ some s
      → P s
  unfolding get_default
  get_default-All P hint s a h =
      let listed = list_of o l stages in
      let first = λ (p : PipelineStage → Bool). first_row-All P p s listed a in
      or_else-elim P (first_row (hinted hint) listed) _ s (first (hinted hint))
        (or_else-elim P (first_row (λ x. x.is_default) listed) (first_row (λ x. true) listed) s
          (first (λ x. x.is_default)) (first (λ x. true)))
        h

  pub get_default-Stands :
      (hint : Option String) (s : PipelineStage)
      → get_default o l hint stages ≡ some s
      → Stands o stages s
  get_default-Stands hint s h =
      get_default-All (Stands o stages) hint s (list_of-Stands o l stages) h

  list_of-lifecycle : All (λ s. of_lifecycle o l s ≡ true) (list_of o l stages)
  unfolding list_of
  list_of-lifecycle =
      All-order_by (λ s. of_lifecycle o l s ≡ true) (λ s t. leb s.position t.position)
        (select (of_lifecycle o l) stages)
        (All-select (λ s. of_lifecycle o l s ≡ true) (of_lifecycle o l) stages (λ s h m. h))

  pub get_default-lifecycle :
      (hint : Option String) (s : PipelineStage)
      → get_default o l hint stages ≡ some s
      → s.lifecycle ≡ l
  get_default-lifecycle hint s h =
      let r = get_default-All (λ x. of_lifecycle o l x ≡ true) hint s list_of-lifecycle h in
      same_lifecycle-eq s.lifecycle l (and_right _ _ r)

  any-list_of :
      (p : PipelineStage → Bool)
      → any p (list_of o l stages) ≡ any (λ s. of_lifecycle o l s && p s) stages
  unfolding list_of
  any-list_of p =
      any-order_by p (λ s t. leb s.position t.position) (select (of_lifecycle o l) stages)
      ∙ any-select p (of_lifecycle o l) stages

  -- a hint that names a stage is followed
  pub get_default-named :
      (name : String)
      → any (is_named o l name) stages ≡ true
      → (s : PipelineStage) × (get_default o l (some name) stages ≡ some s)
        × (str_eq s.name name ≡ true)
  unfolding get_default
  get_default-named name h =
      let found =
        first_row-any (hinted (some name)) (list_of o l stages)
        ∙ any-list_of (hinted (some name))
        ∙ h in
      let (s, e) = is_some-some _ found in
      (s, rw e refl, first_row-fits (hinted (some name)) s (list_of o l stages) e)

  pub get_default-some :
      (hint : Option String)
      → any (of_lifecycle o l) stages ≡ true
      → (s : PipelineStage) × (get_default o l hint stages ≡ some s)
  unfolding get_default
  get_default-some hint h =
      let listed = list_of o l stages in
      let found =
        first_row-any (λ s. true) listed
        ∙ any-list_of (λ s. true)
        ∙ any-same (λ s. of_lifecycle o l s && true) (of_lifecycle o l) (λ s. ground arith) stages
        ∙ h in
      is_some-some _ (
        is_some-or_else (first_row (hinted hint) listed) _
          (is_some-or_else (first_row (λ s. s.is_default) listed) _ found))
