-- ===== src/Pipeline/Seeded.antt =====
-- pipeline_service.py, `_ensure_defaults`, and what `get_default` finds after it.
use agency_os.Prelude.{
  ℕ, ◌+◌, ◌≡◌, refl, ◌∙◌, String, Bool, true, ◌&&◌, ◌||◌, List, [], ◌∷◌, ◌==◌, leb, select, arith,
  Bool-cases, inl, inr,
}
use text.Mathlib.Text.{◌==◌ as str_eq}
use text.Mathlib.TextEquality.{eq_iff}
use agency_os.Db.Rows.{order_by}
use agency_os.Db.Search.{any, Has, here, there, any-order_by, any-select, any-same, any-append}
use agency_os.Pipeline.Board.{
  StageLifecycle, same_lifecycle, PipelineStage, Board, of_lifecycle, list,
}
use agency_os.Pipeline.Stages.{
  DefaultStage, default_stages, is_there, missing_stages, ensure_defaults,
}

abbrev pub is_named : ℕ → StageLifecycle → String → PipelineStage → Bool
is_named o lifecycle name s = of_lifecycle o lifecycle s && str_eq s.name name

turned : (a b c : Bool) → (a && (b && c)) ≡ ((a && c) && b)
turned a b c = ground arith

is_there-fits :
    (name : String) (l : StageLifecycle) (stages : List PipelineStage)
    → is_there name l stages ≡ any (λ s. str_eq s.name name && same_lifecycle s.lifecycle l) stages
is_there-fits name l [] = refl
is_there-fits name l (s ∷ stages) = rw (is_there-fits name l stages) refl

-- every default stage is on the table
abbrev pub Seeded : ℕ → List PipelineStage → Type 0
Seeded o stages =
    (d : DefaultStage) → Has d default_stages → any (is_named o d.lifecycle d.name) stages ≡ true

is_there-any :
    (o : ℕ) (name : String) (l : StageLifecycle) (stages : List PipelineStage)
    → is_there name l (list o stages) ≡ any (is_named o l name) stages
unfolding list
is_there-any o name l stages =
    let mine = λ (s : PipelineStage). s.organization_id == o in
    let fits = λ (s : PipelineStage). str_eq s.name name && same_lifecycle s.lifecycle l in
    is_there-fits name l (order_by (λ s t. leb s.position t.position) (select mine stages))
    ∙ any-order_by fits (λ s t. leb s.position t.position) (select mine stages)
    ∙ any-select fits mine stages
    ∙ any-same _ (is_named o l name) (λ s. turned (s.organization_id == o) _ _) stages

or_left : (a b c : Bool) → (a || c) ≡ true → (a || (b || c)) ≡ true
or_left a b c h = ground arith

text_refl : (s : String) → str_eq s s ≡ true
text_refl s = (eq_iff s s).1 refl

missing_stages-any :
    (ids : ℕ → ℕ) (o : ℕ) (stages : List PipelineStage) (position : ℕ) (d : DefaultStage)
    (ds : List DefaultStage)
    → Has d ds
    → (is_there d.name d.lifecycle stages
        || any (is_named o d.lifecycle d.name) (missing_stages ids o stages position ds))
      ≡ true
unfolding missing_stages
missing_stages-any ids o stages position d [] m = elim m [ ]
missing_stages-any ids o stages position d (_ ∷ ds) here =
    elim (Bool-cases (is_there d.name d.lifecycle stages)) [
      | inl there_already ↦ rw there_already refl
      | inr absent ↦ rw (absent, text_refl d.name) (ground arith)
    ]
missing_stages-any ids o stages position d (e ∷ ds) (there m) =
    elim (Bool-cases (is_there e.name e.lifecycle stages)) [
      | inl present ↦ rw present (missing_stages-any ids o stages position d ds m)
      | inr absent ↦
          let later = missing_stages ids o stages (position + 1) ds in
          rw absent (
            or_left (is_there d.name d.lifecycle stages) _
              (any (is_named o d.lifecycle d.name) later)
              (missing_stages-any ids o stages (position + 1) d ds m))
    ]

pub ensure_defaults-Seeded :
    (ids : ℕ → ℕ) (o : ℕ) (b : Board) → Seeded o (ensure_defaults ids o b).1.stages
unfolding ensure_defaults
ensure_defaults-Seeded ids o b d m =
    any-append (is_named o d.lifecycle d.name) b.stages _
    ∙ rw⁻¹ (is_there-any o d.name d.lifecycle b.stages)
        (missing_stages-any ids o (list o b.stages) _ d default_stages m)
