-- ===== src/Delivery/Rounds.antt =====
-- delivery_worker.py: one delivery under passes of the worker, none of which another session
-- interrupts. A pass drains the organization and then, an hour later, promotes what is due.
use agency_os.Prelude.{
  ℕ, zero, suc, ◌+◌, ◌-◌, ◌*◌, ◌≤◌, ◌<◌, ◌≡◌, refl, ◌∙◌, true, false, [], ◌∷◌, arith, ◌⊎◌, inl, inr,
  Bool-cases,
}
use mathlib.Core.Path.{subst}
use agency_os.Delivery.Outbox.{Outbox}
use agency_os.Delivery.Rows.{Delivery, is_due, is_promotable, promote_values}
use agency_os.Delivery.Budget.{Kept, verdict_kept, is_settled, fate, waits, verdict_fate, result}
use agency_os.Delivery.Passes.{
  pass, passes, claimed_row, tried_row, promoted_row, pass-due, pass-settled,
}
use agency_os.Delivery.Sweep.{Limits}
use agency_os.Delivery.Worker.{Outcome, max_delay}

module _ (limits : Limits) (provider : Delivery → Outcome) (clock : ℕ → ℕ) where
  passes-settled :
      (m n k o : ℕ) (d : Delivery) (box : Outbox)
      → d.organization_id ≡ o
      → limits.batch_size ≡ suc m
      → box.deliveries ≡ d ∷ []
      → is_settled d ≡ true
      → (passes limits provider clock n k o box).deliveries ≡ d ∷ []
  unfolding passes
  passes-settled m zero k o d box e s b h = b
  passes-settled m (suc n) k o d box e s b h =
      let after =
        subst (λ x. (pass limits provider clock k x box).deliveries ≡ d ∷ []) e
          (pass-settled limits provider clock k m d box b h s) in
      passes-settled m n (k + 1) o d (pass limits provider clock k o box) e s after h

  -- what a pass makes of a ready row: it is settled, or ready again with one attempt less
  record Passed (d r : Delivery) : Type 0 where
    one_more : r.attempts ≡ d.attempts + 1
    same_budget : r.max_attempts ≡ d.max_attempts
    same_organization : r.organization_id ≡ d.organization_id
    fate :
        (is_settled r ≡ true)
        ⊎ (((j : ℕ) → is_due (clock j) r ≡ true) × (r.attempts < r.max_attempts))

  ready_again :
      (k j : ℕ) (d t : Delivery)
      → is_due (clock j) d ≡ true
      → waits (clock (2 * k + 1)) t ≡ true
      → t.scheduled_for ≡ d.scheduled_for
      → is_due (clock j) (promote_values (clock (2 * k + 1) + max_delay) t) ≡ true
  ready_again k j d t h w e = ground arith

  promoted_row-Passed :
      (k : ℕ) (d t : Delivery)
      → ((j : ℕ) → is_due (clock j) d ≡ true)
      → fate (clock (2 * k + 1)) t ≡ true
      → Kept (claimed_row limits provider clock k d) t
      → Passed d (promoted_row limits provider clock k t)
  promoted_row-Passed k d t h f same = elim (Bool-cases (is_settled t)) [
    | inl s ↦
        let off : is_promotable (clock (2 * k + 1) + max_delay) t ≡ false = ground arith in
        rw off (record {
          one_more = same.attempts;
          same_budget = same.budget;
          same_organization = same.organization;
          fate = inl s;
        })
    | inr open_row ↦
        let w : waits (clock (2 * k + 1)) t ≡ true = ground arith in
        let on : is_promotable (clock (2 * k + 1) + max_delay) t ≡ true = ground arith in
        rw on (record {
          one_more = same.attempts;
          same_budget = same.budget;
          same_organization = same.organization;
          fate = inr ((λ j. ready_again k j d t (h j) w same.schedule), ground arith);
        })
  ]

  passed :
      (k : ℕ) (d : Delivery)
      → ((j : ℕ) → is_due (clock j) d ≡ true)
      → Passed d (promoted_row limits provider clock k (tried_row limits provider clock k d))
  passed k d h =
      let at = clock (2 * k + 1) in
      let c = claimed_row limits provider clock k d in
      promoted_row-Passed k d (tried_row limits provider clock k d) h
        (verdict_fate limits.retry_base_seconds c at at (result provider c))
        (verdict_kept limits.retry_base_seconds c at at (result provider c))

  settle_within :
      (n k o : ℕ) (d : Delivery) (box : Outbox)
      → d.organization_id ≡ o
      → 0 < limits.batch_size
      → box.deliveries ≡ d ∷ []
      → ((j : ℕ) → is_due (clock j) d ≡ true)
      → d.attempts < d.max_attempts
      → d.max_attempts ≤ d.attempts + n
      → (r : Delivery) × ((passes limits provider clock n k o box).deliveries ≡ r ∷ [])
        × (is_settled r ≡ true)
        × (r.attempts ≤ d.max_attempts)
  unfolding passes
  settle_within zero k o d box e z b h l m = absurd (omega arith)
  settle_within (suc n) k o d box e z b h l m =
      let size : limits.batch_size ≡ suc (limits.batch_size - 1) = omega arith in
      let r = promoted_row limits provider clock k (tried_row limits provider clock k d) in
      let p = passed k d h in
      let e' = p.same_organization ∙ e in
      let after : (pass limits provider clock k o box).deliveries ≡ r ∷ [] =
        subst (λ x. (pass limits provider clock k x box).deliveries ≡ r ∷ []) e
          (pass-due limits provider clock k (limits.batch_size - 1) d box b (h (2 * k)) size) in
      elim p.fate [
        | inl s ↦ (
          r,
          passes-settled (limits.batch_size - 1) n (k + 1) o r (pass limits provider clock k o box)
              e' size after s,
          s,
          omega (arith, p.one_more),
        )
        | inr (due, left) ↦
            let (r', q, s, a) =
              settle_within n (k + 1) o r (pass limits provider clock k o box) e' z after due left
                (omega (arith, p.one_more, p.same_budget)) in
            (r', q, s, omega (arith, p.same_budget))
      ]

  -- A delivery that is alone in the outbox, due whenever the worker looks, and has attempts left, is
  -- settled (delivered, failed or cancelled) after at most `max_attempts - attempts` passes of the worker,
  -- whatever its provider answers, and has then not been attempted more than `max_attempts` times.
  -- A pass drains the organization and, an hour after the attempt ends, promotes the retries due.
  pub passes_settle :
      (k : ℕ) (d : Delivery) (box : Outbox)
      → 0 < limits.batch_size
      → box.deliveries ≡ d ∷ []
      → ((j : ℕ) → is_due (clock j) d ≡ true)
      → d.attempts < d.max_attempts
      → (r : Delivery) × ((passes limits provider clock
            (d.max_attempts - d.attempts)
            k
            d.organization_id
            box).deliveries
          ≡ r ∷ [])
        × (is_settled r ≡ true)
        × (r.attempts ≤ d.max_attempts)
  passes_settle k d box z b h l =
      settle_within (d.max_attempts - d.attempts) k d.organization_id d box refl z b h l
        (omega arith)
