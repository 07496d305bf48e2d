-- ===== src/Pipeline/Order.antt =====
-- pipeline_service.py, `reorder_stages`.
use agency_os.Prelude.{
  ℕ, zero, suc, ◌+◌, ◌≡◌, refl, sym, ap, ◌∙◌, Bool, true, false, ◌&&◌, not, Option, none, some,
  List, [], ◌∷◌, ◌==◌, leb, select, map, length, contains, if◌then◌else◌, arith, Bool-cases, inl,
  inr, All,
}
use agency_os.Db.Rows.{order_by}
use agency_os.Db.Search.{All-order_by, All-unordered}
use agency_os.Db.Session.{Result, ok, err}
use agency_os.Pipeline.Board.{PipelineStage, Board, list}
use agency_os.Pipeline.Stages.{number_from, reorder_stages, same_set, all_among, ids_of}

abbrev pub nth : ℕ → List ℕ → Option ℕ
nth n [] = none
nth zero (x ∷ xs) = some x
nth (suc n) (x ∷ xs) = nth n xs

-- the id at the stage's position is its own
abbrev pub Seated : List ℕ → PipelineStage → Type 0
Seated ids s = nth s.position ids ≡ some s.id

abbrev own : ℕ → PipelineStage → Bool
own o s = s.organization_id == o

-- the loop, for one stage
abbrev step : ℕ → ℕ → ℕ → PipelineStage → PipelineStage
step o n i s = if own o s && s.id == i then record s { position = n } else s

seat : ℕ → ℕ → List ℕ → PipelineStage → PipelineStage
seat o n [] s = s
seat o n (i ∷ ids) s = seat o (n + 1) ids (step o n i s)

map_fusion :
    (f g : PipelineStage → PipelineStage) (ss : List PipelineStage)
    → map f (map g ss) ≡ map (λ s. f (g s)) ss
map_fusion f g [] = refl
map_fusion f g (s ∷ ss) = ap (λ r. f (g s) ∷ r) (map_fusion f g ss)

map_same : (ss : List PipelineStage) → map (λ s. s) ss ≡ ss
map_same [] = refl
map_same (s ∷ ss) = ap (λ r. s ∷ r) (map_same ss)

number_from-seat :
    (o n : ℕ) (ids : List ℕ) (ss : List PipelineStage)
    → number_from o n ids ss ≡ map (seat o n ids) ss
unfolding number_from seat
number_from-seat o n [] ss = sym (map_same ss)
number_from-seat o n (i ∷ ids) ss =
    number_from-seat o (n + 1) ids (map (step o n i) ss)
    ∙ map_fusion (seat o (n + 1) ids) (step o n i) ss

step-own : (o n i : ℕ) (s : PipelineStage) → own o (step o n i s) ≡ own o s
step-own o n i s = ground arith

step-id : (o n i : ℕ) (s : PipelineStage) → (step o n i s).id ≡ s.id
step-id o n i s = ground arith

-- the ids that are left stand in the list from `n` on
abbrev Rest : ℕ → List ℕ → List ℕ → Type 0
Rest n all ids = (k : ℕ) → nth (n + k) all ≡ nth k ids

Rest-head : (n i : ℕ) (all ids : List ℕ) → Rest n all (i ∷ ids) → nth n all ≡ some i
Rest-head n i all ids h = let e : n ≡ n + 0 = omega arith in ap (λ x. nth x all) e ∙ h zero

Rest-tail : (n i : ℕ) (all ids : List ℕ) → Rest n all (i ∷ ids) → Rest (n + 1) all ids
Rest-tail n i all ids h k =
    let e : n + 1 + k ≡ n + suc k = omega arith in ap (λ x. nth x all) e ∙ h (suc k)

hit-Seated :
    (o n i : ℕ) (all : List ℕ) (s : PipelineStage)
    → nth n all ≡ some i
    → own o s ≡ true
    → (s.id == i) ≡ true
    → Seated all (step o n i s)
hit-Seated o n i all s h w e =
    let same : s.id ≡ i = ground arith in
    let hit : (own o s && s.id == i) ≡ true = ground arith in
    rw hit (h ∙ ap (λ x. some x) (sym same))

step-Seated :
    (o n i : ℕ) (all : List ℕ) (s : PipelineStage)
    → nth n all ≡ some i
    → own o s ≡ true
    → Seated all s
    → Seated all (step o n i s)
step-Seated o n i all s h w d = elim (Bool-cases (s.id == i)) [
  | inl e ↦ hit-Seated o n i all s h w e
  | inr e ↦ let miss : (own o s && s.id == i) ≡ false = ground arith in rw miss d
]

seat-kept :
    (o n : ℕ) (all ids : List ℕ) (s : PipelineStage)
    → Rest n all ids
    → own o s ≡ true
    → Seated all s
    → Seated all (seat o n ids s)
unfolding seat
seat-kept o n all [] s h w d = d
seat-kept o n all (i ∷ ids) s h w d =
    seat-kept o (n + 1) all ids (step o n i s) (Rest-tail n i all ids h) (step-own o n i s ∙ w)
      (step-Seated o n i all s (Rest-head n i all ids h) w d)

seat-Seated :
    (o n : ℕ) (all ids : List ℕ) (s : PipelineStage)
    → Rest n all ids
    → own o s ≡ true
    → contains ids s.id ≡ true
    → Seated all (seat o n ids s)
unfolding seat
seat-Seated o n all [] s h w c = absurd (let e : ⊥ = cc in e)
seat-Seated o n all (i ∷ ids) s h w c = elim (Bool-cases (s.id == i)) [
  | inl e ↦
      seat-kept o (n + 1) all ids (step o n i s) (Rest-tail n i all ids h) (step-own o n i s ∙ w)
        (hit-Seated o n i all s (Rest-head n i all ids h) w e)
  | inr e ↦
      let later : contains ids s.id ≡ true = ground arith in
      seat-Seated o (n + 1) all ids (step o n i s) (Rest-tail n i all ids h) (step-own o n i s ∙ w)
        (ap (λ x. contains ids x) (step-id o n i s) ∙ later)
]

seat-own : (o n : ℕ) (ids : List ℕ) (s : PipelineStage) → own o (seat o n ids s) ≡ own o s
unfolding seat
seat-own o n [] s = refl
seat-own o n (i ∷ ids) s = seat-own o (n + 1) ids (step o n i s) ∙ step-own o n i s

-- a stage of the organization is named
abbrev Named : ℕ → List ℕ → PipelineStage → Type 0
Named o ids s = (own o s && not (contains ids s.id)) ≡ false

all_among-Named :
    (o : ℕ) (ids : List ℕ) (ss : List PipelineStage)
    → all_among ids (ids_of ss) ≡ true
    → All (Named o ids) ss
all_among-Named o ids [] h = tt
all_among-Named o ids (s ∷ ss) h = elim (Bool-cases (contains ids s.id)) [
  | inl c ↦ (rw c (ground arith), all_among-Named o ids ss (rw c at h))
  | inr c ↦ let e : false ≡ true = rw c at h in absurd (let x : ⊥ = cc in x)
]

All-unselect :
    (o : ℕ) (ids : List ℕ) (ss : List PipelineStage)
    → All (Named o ids) (select (own o) ss)
    → All (Named o ids) ss
All-unselect o ids [] a = tt
All-unselect o ids (s ∷ ss) a = elim (Bool-cases (own o s)) [
  | inl w ↦
      let b : Named o ids s × All (Named o ids) (select (own o) ss) = rw w at a in
      (b.0, All-unselect o ids ss b.1)
  | inr w ↦
      let b : All (Named o ids) (select (own o) ss) = rw w at a in
      (ground arith, All-unselect o ids ss b)
]

map-Seated :
    (o : ℕ) (ids : List ℕ) (ss : List PipelineStage)
    → All (Named o ids) ss
    → All (Seated ids) (select (own o) (map (seat o 0 ids) ss))
map-Seated o ids [] a = tt
map-Seated o ids (s ∷ ss) (n, a) = elim (Bool-cases (own o s)) [
  | inl w ↦
      let w' : own o (seat o 0 ids s) ≡ true = seat-own o 0 ids s ∙ w in
      let c : contains ids s.id ≡ true = ground arith in
      rw w' (
        seat-Seated o 0 ids ids s (λ k. ap (λ x. nth x ids) (omega arith)) w c,
        map-Seated o ids ss a,
      )
  | inr w ↦
      let w' : own o (seat o 0 ids s) ≡ false = seat-own o 0 ids s ∙ w in
      rw w' (map-Seated o ids ss a)
]

-- a call that returns the stages as they are then listed, each at the position that its id has among
-- `ids`, or that is refused and changes nothing
abbrev pub Ordered : ℕ → List ℕ → Board → Result (List PipelineStage) × Board → Type 0
Ordered o ids b (ok ss, b') =
    All (Seated ids) ss
    × (ss ≡ list o b'.stages)
    × (length ids ≡ length (list o b.stages))
    × (b'.leads ≡ b.leads)
Ordered o ids b (err e, b') = b' ≡ b

abbrev complete : ℕ → List ℕ → Board → Bool
complete o ids b = same_set ids (ids_of (list o b.stages)) && length ids == length (list o b.stages)

listed-Seated :
    (o : ℕ) (ids : List ℕ) (b : Board)
    → complete o ids b ≡ true
    → All (Seated ids) (list o (number_from o 0 ids b.stages))
unfolding list
listed-Seated o ids b h =
    let mine = select (own o) b.stages in
    let le = λ (s t : PipelineStage). leb s.position t.position in
    let among : all_among ids (ids_of (order_by le mine)) ≡ true = ground arith in
    let named =
      All-unselect o ids b.stages
        (All-unordered (Named o ids) le mine (all_among-Named o ids _ among)) in
    rw (number_from-seat o 0 ids b.stages) (
      All-order_by (Seated ids) le (select (own o) (map (seat o 0 ids) b.stages))
        (map-Seated o ids b.stages named))

-- Reordering returns the stages of the organization as they are then listed, and each stands at the
-- position at which its id stands in the request, which names as many ids as there were stages; no lead
-- changes. Or the request is refused, and the board stays as it was.
pub reorder_stages-Ordered :
    (o : ℕ) (ids : List ℕ) (b : Board) → Ordered o ids b (reorder_stages o ids b)
unfolding reorder_stages
reorder_stages-Ordered o ids b = elim (Bool-cases (complete o ids b)) [
  | inl h ↦
      let n : length ids ≡ length (list o b.stages) = ground arith in
      rw h (listed-Seated o ids b h, refl, n, refl)
  | inr h ↦ rw h refl
]
