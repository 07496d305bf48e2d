-- ===== src/Delivery/Passes.antt =====
-- delivery_worker.py: a pass of the worker over one delivery, which no other session interrupts.
-- A pass drains the organization and then, an hour later, promotes what is due.
use agency_os.Prelude.{
  ℕ, zero, suc, ◌+◌, ◌*◌, ◌≡◌, refl, ◌∙◌, ap, Bool, true, false, ◌&&◌, some, List, [], ◌∷◌, ◌==◌,
  take, if◌then◌else◌, arith,
}
use agency_os.Db.Rows.{order_by, insert_row}
use agency_os.Db.Store.{◌>>=◌, pure}
use agency_os.Delivery.Outbox.{Outbox, DeliveryEventType, alone, event, apply}
use agency_os.Delivery.Rows.{
  Delivery, guard_of, values_of, keyed, is_due, is_promotable, promote_values, claim_values,
}
use agency_os.Delivery.Budget.{
  is_settled, verdict, verdict_guard, moved, keyed_self, then_pure, result, attempt-deliveries,
}
use agency_os.Delivery.Sweep.{Limits, get_queued_for_org, drain_org, requeue_due_retrying}
use agency_os.Delivery.Worker.{Outcome, max_delay, attempt, drain_claimed, drain}

module _ (limits : Limits) (provider : Delivery → Outcome) (clock : ℕ → ℕ) where
  abbrev pub base : ℕ
  base = limits.retry_base_seconds

  -- one pass of the worker over a delivery, and the promotion an hour later
  abbrev pub pass : ℕ → ℕ → Outbox → Outbox
  pass k o box =
      let drained = (drain_org limits provider alone clock k o box).1 in
      (requeue_due_retrying (clock (2 * k + 1) + max_delay) drained).1

  unfoldable pub passes : ℕ → ℕ → ℕ → Outbox → Outbox
  passes zero k o box = box
  passes (suc n) k o box = passes n (k + 1) o (pass k o box)

  abbrev pub claimed_row : ℕ → Delivery → Delivery
  claimed_row k d = claim_values (clock (2 * k)) d

  -- the row after its attempt
  abbrev pub tried_row : ℕ → Delivery → Delivery
  tried_row k d =
      values_of
        (verdict base (claimed_row k d) (clock (2 * k + 1)) (result provider (claimed_row k d)))
        (clock (2 * k + 1)) (claimed_row k d)

  abbrev pub promoted_row : ℕ → Delivery → Delivery
  promoted_row k d =
      let at = clock (2 * k + 1) + max_delay in
      if is_promotable at d then promote_values at d else d

  drain_claimed-deliveries :
      (k o : ℕ) (c : Delivery) (box : Outbox)
      → ((drain_claimed base provider alone clock k o (some c) >>= λ sent. pure (sent + 0))
          box).1.deliveries
        ≡ moved o c
            (clock (2 * k + 1))
            (verdict base c (clock (2 * k + 1)) (result provider c))
            box.deliveries
  unfolding drain_claimed event
  drain_claimed-deliveries k o c box =
      ap (λ b. b.deliveries)
        (then_pure (drain_claimed base provider alone clock k o (some c)) (λ n. n + 0) box)
      ∙ ap (λ b. b.deliveries)
          (then_pure {B = ℕ} (attempt base provider alone clock k o c) (λ u. suc zero)
            (event o c DeliveryEventType.claimed box).1)
      ∙ attempt-deliveries base provider clock k o c (event o c DeliveryEventType.claimed box).1

  drain-due :
      (k : ℕ) (d : Delivery) (box : Outbox)
      → box.deliveries ≡ d ∷ []
      → is_due (clock (2 * k)) d ≡ true
      → (drain base provider alone clock k d.organization_id (d ∷ []) box).1.deliveries
        ≡ tried_row k d ∷ []
  unfolding drain apply guard_of values_of
  drain-due k d box b h =
      let hit : keyed d.organization_id d.id (is_due (clock (2 * k))) d ≡ true =
        keyed_self d (is_due (clock (2 * k))) true h in
      let c = claimed_row k d in
      let t = verdict base c (clock (2 * k + 1)) (result provider c) in
      let hit' : keyed c.organization_id c.id (guard_of t (clock (2 * k + 1))) c ≡ true =
        keyed_self c (guard_of t (clock (2 * k + 1))) true
          (verdict_guard base c (clock (2 * k + 1)) (clock (2 * k + 1)) (result provider c) refl) in
      rw (b, hit) (drain_claimed-deliveries k d.organization_id c _ ∙ rw hit' refl)

  promoted_rows :
      (at : ℕ) (d : Delivery) (box : Outbox)
      → box.deliveries ≡ d ∷ []
      → (requeue_due_retrying at box).1.deliveries
        ≡ (if is_promotable at d then promote_values at d else d) ∷ []
  unfolding requeue_due_retrying
  promoted_rows at d box b = rw b refl

  take-nil : (n : ℕ) → ◌≡◌ {A = List Delivery} (take n []) []
  take-nil zero = refl
  take-nil (suc n) = refl

  queued_alone :
      (k n : ℕ) (d : Delivery) (b : Bool)
      → is_due (clock (2 * k)) d ≡ b
      → get_queued_for_org d.organization_id (clock (2 * k)) (suc n) (d ∷ [])
        ≡ (if b then d ∷ [] else [])
  unfolding get_queued_for_org order_by insert_row
  queued_alone k n d true h =
      let hit : (d.organization_id == d.organization_id && is_due (clock (2 * k)) d) ≡ true =
        ground arith in
      rw hit (ap (λ ds. d ∷ ds) (take-nil n))
  queued_alone k n d false h =
      let miss : (d.organization_id == d.organization_id && is_due (clock (2 * k)) d) ≡ false =
        ground arith in
      rw miss refl

  pub pass-due :
      (k n : ℕ) (d : Delivery) (box : Outbox)
      → box.deliveries ≡ d ∷ []
      → is_due (clock (2 * k)) d ≡ true
      → limits.batch_size ≡ suc n
      → (pass k d.organization_id box).deliveries ≡ promoted_row k (tried_row k d) ∷ []
  unfolding drain_org
  pass-due k n d box b h s =
      let same : (drain_org limits provider alone clock k d.organization_id box).1.deliveries
          ≡ tried_row k d ∷ [] =
        rw (b, s, queued_alone k n d true h) (drain-due k d _ refl h) in
      promoted_rows _ _ _ same

  pub pass-settled :
      (k n : ℕ) (d : Delivery) (box : Outbox)
      → box.deliveries ≡ d ∷ []
      → is_settled d ≡ true
      → limits.batch_size ≡ suc n
      → (pass k d.organization_id box).deliveries ≡ d ∷ []
  unfolding drain_org drain
  pass-settled k n d box b h s =
      let off : is_promotable (clock (2 * k + 1) + max_delay) d ≡ false = ground arith in
      let idle : is_due (clock (2 * k)) d ≡ false = ground arith in
      let same : (drain_org limits provider alone clock k d.organization_id box).1.deliveries
          ≡ d ∷ [] =
        rw (b, s, queued_alone k n d false idle) refl in
      promoted_rows _ _ _ same ∙ rw off refl
