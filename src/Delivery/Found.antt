-- ===== src/Delivery/Found.antt =====
-- repositories/delivery.py: a transition of the row that `get` finds.
use agency_os.Prelude.{
  ℕ, ◌≡◌, refl, ap, ◌∙◌, Bool, true, false, Option, none, some, List, [], ◌∷◌, arith, Bool-cases,
  inl, inr, All,
}
use agency_os.Db.Rows.{update_rows, update_row, returned, first_row}
use agency_os.Delivery.Rows.{
  Delivery, Transition, claim, mark_delivered, mark_failed, schedule_retry, mark_cancel_requested,
  mark_cancelled, mark_cancelled_after_send, mark_requeued, requeue_stale, guard_of, values_of,
  keyed,
}

abbrev pub names : ℕ → ℕ → Delivery → Bool
names organization_id delivery_id = keyed organization_id delivery_id (λ d. true)

-- the row that a key names, which is the only one
pub record Found (o i : ℕ) (d : Delivery) (rows : List Delivery) : Type 0 where
  pub found : first_row (names o i) rows ≡ some d
  pub only : All (λ r. names o i r ≡ true → r ≡ d) rows

values_of-names :
    (o i : ℕ) (t : Transition) (at : ℕ) (d : Delivery) → names o i (values_of t at d) ≡ names o i d
unfolding values_of
values_of-names o i claim at d = refl
values_of-names o i (mark_delivered m) at d = refl
values_of-names o i (mark_failed e) at d = refl
values_of-names o i (schedule_retry n e) at d = refl
values_of-names o i (mark_cancel_requested by) at d = refl
values_of-names o i (mark_cancelled by) at d = refl
values_of-names o i (mark_cancelled_after_send e) at d = refl
values_of-names o i mark_requeued at d = refl
values_of-names o i (requeue_stale b) at d = refl

module _ (o i : ℕ) (guard : Delivery → Bool) (values : Delivery → Delivery) where
  keyed-hit : (r : Delivery) → names o i r ≡ true → keyed o i guard r ≡ guard r
  keyed-hit r h = ground arith

  keyed-miss : (r : Delivery) → names o i r ≡ false → keyed o i guard r ≡ false
  keyed-miss r h = ground arith

  head_of :
      (r d : Delivery) (rs : List Delivery)
      → names o i r ≡ true
      → first_row (names o i) (r ∷ rs) ≡ some d
      → r ≡ d
  head_of r d rs hit h = let e : ◌≡◌ {A = Option Delivery} (some r) (some d) = rw hit at h in cc

  pub first_row-update_rows :
      ((r : Delivery) → names o i (values r) ≡ names o i r)
      → (d : Delivery) (rows : List Delivery) → first_row (names o i) rows ≡ some d
      → first_row (names o i) (update_rows (keyed o i guard) values rows)
        ≡ some (update_row guard values d)
  first_row-update_rows same d [] h = cc
  first_row-update_rows same d (r ∷ rs) h = elim (Bool-cases (names o i r)) [
    | inl hit ↦
        let e : r ≡ d = head_of r d rs hit h in
        elim (Bool-cases (guard r)) [
          | inl g ↦
              let v : names o i (values r) ≡ true = same r ∙ hit in
              rw (keyed-hit r hit, g, v, ← e, g) refl
          | inr g ↦ rw (keyed-hit r hit, g, hit, ← e, g) refl
        ]
    | inr miss ↦ rw (keyed-miss r miss, miss) (first_row-update_rows same d rs (rw miss at h))
  ]

  pub returned-some :
      (d : Delivery) (rows : List Delivery)
      → first_row (names o i) rows ≡ some d
      → guard d ≡ true
      → returned (keyed o i guard) values rows ≡ some (values d)
  returned-some d [] h g = cc
  returned-some d (r ∷ rs) h g = elim (Bool-cases (names o i r)) [
    | inl hit ↦
        let e : r ≡ d = head_of r d rs hit h in
        let g' : guard r ≡ true = ap guard e ∙ g in
        rw (keyed-hit r hit, g') (ap (λ x. some (values x)) e)
    | inr miss ↦ rw (keyed-miss r miss) (returned-some d rs (rw miss at h) g)
  ]

  pub returned-none :
      (d : Delivery) (rows : List Delivery)
      → All (λ r. names o i r ≡ true → r ≡ d) rows
      → guard d ≡ false
      → returned (keyed o i guard) values rows ≡ none
  returned-none d [] a g = refl
  returned-none d (r ∷ rs) (p, a) g = elim (Bool-cases (names o i r)) [
    | inl hit ↦
        let g' : guard r ≡ false = ap guard (p hit) ∙ g in
        rw (keyed-hit r hit, g') (returned-none d rs a g)
    | inr miss ↦ rw (keyed-miss r miss) (returned-none d rs a g)
  ]

pub first_row-transition :
    (o i : ℕ) (t : Transition) (at : ℕ) (d : Delivery) (rows : List Delivery)
    → first_row (names o i) rows ≡ some d
    → first_row (names o i) (update_rows (keyed o i (guard_of t at)) (values_of t at) rows)
      ≡ some (update_row (guard_of t at) (values_of t at) d)
first_row-transition o i t at d rows h =
    first_row-update_rows o i (guard_of t at) (values_of t at) (values_of-names o i t at) d rows h
