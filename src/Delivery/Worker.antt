-- ===== src/Delivery/Worker.antt =====
-- backend/app/workers/delivery_worker.py. What a provider answers, the clock, and what other sessions
-- commit before a claim and during a provider's call are parameters. Metrics that only observe time
-- are left out.
use agency_os.Prelude.{
  ℕ, ◌+◌, ◌-◌, ◌*◌, ◌^◌, String, Bool, true, false, ◌&&◌, ◌||◌, not, Option, none, some, List, [],
  ◌∷◌, leb, ltb, is_some, if◌then◌else◌,
}
use agency_os.Db.Tables.{Fields}
use agency_os.Db.Store.{◌>>=◌, ◌>>◌, pure, modify}
use agency_os.Delivery.Outbox.{M, Others, DeliveryEventType, event, count, apply}
use agency_os.Delivery.Rows.{
  Delivery, DeliveryChannel, dashboard, Transition, claim, mark_delivered, mark_failed,
  schedule_retry, mark_cancelled_after_send,
}

-- what `provider.deliver` under `wait_for` comes to: a result with or without `ok`, or what it raises
pub data Outcome : Type 0 where
  answered : Fields → Outcome
  declined : String → Outcome
  overdue : Outcome
  permanent : String → Outcome
  retryable : String → Outcome
  raised : String → Outcome

abbrev pub provider_available : DeliveryChannel → Bool
provider_available dashboard = true
provider_available _ = false

abbrev pub max_delay : ℕ
max_delay = 3600

unfoldable pub backoff : ℕ → ℕ → ℕ
backoff base attempt =
    let delay = base * 2 ^ (attempt - 1) in if ltb max_delay delay then max_delay else delay

-- the transition that `_land` chooses for a failed attempt, by the row as it was claimed
unfoldable pub landing : ℕ → Delivery → Bool → String → ℕ → Transition
landing base claimed is_permanent error at =
    if is_some claimed.cancel_requested_at && not is_permanent
    then mark_cancelled_after_send (some error)
    else if is_permanent || leb claimed.max_attempts claimed.attempts
    then mark_failed error
    else schedule_retry (at + backoff base claimed.attempts) error

-- the event and the counters that follow the transition
unfoldable pub note_landed : ℕ → Transition → Option Delivery → M (Unit {0})
note_landed organization_id t none = pure tt
note_landed organization_id (mark_cancelled_after_send _) (some d) = do
  event organization_id d DeliveryEventType.cancelled
  count (λ c. record c {
    cancelled_total = c.cancelled_total + 1;
    drained_total = c.drained_total + 1;
  })
note_landed organization_id (mark_failed _) (some d) = do
  event organization_id d DeliveryEventType.failed
  count (λ c. record c { failed_total = c.failed_total + 1; drained_total = c.drained_total + 1 })
note_landed organization_id (schedule_retry _ _) (some d) = do
  event organization_id d DeliveryEventType.retrying
  count (λ c. record c { retried_total = c.retried_total + 1 })
note_landed organization_id _ (some d) = pure tt

unfoldable pub note_delivered : ℕ → Option Delivery → M (Unit {0})
note_delivered organization_id none = pure tt
note_delivered organization_id (some d) = do
  event organization_id d DeliveryEventType.delivered
  count (λ c. record c { drained_total = c.drained_total + 1 })

module _ (base : ℕ) (provider : Delivery → Outcome) (others : Others) (clock : ℕ → ℕ) where
  unfoldable pub land : ℕ → ℕ → Delivery → Bool → String → M (Unit {0})
  unfolding note_landed
  land k organization_id claimed is_permanent error = do
    let t = landing base claimed is_permanent error (clock (2 * k + 1))
    landed ← apply organization_id claimed.id (clock (2 * k + 1)) t
    note_landed organization_id t landed

  unfoldable pub returned_ok : ℕ → ℕ → Delivery → Fields → M (Unit {0})
  unfolding note_delivered
  returned_ok k organization_id claimed metadata = do
    event organization_id claimed DeliveryEventType.provider_returned
    count (λ c. record c { delivered_total = c.delivered_total + 1 })
    d ← apply organization_id claimed.id (clock (2 * k + 1)) (mark_delivered metadata)
    note_delivered organization_id d

  -- the branches of `_attempt` after the call
  unfoldable pub settle : ℕ → ℕ → Delivery → Outcome → M (Unit {0})
  unfolding land returned_ok
  settle k organization_id claimed (answered metadata) =
      returned_ok k organization_id claimed metadata
  settle k organization_id claimed (declined error) = do
    event organization_id claimed DeliveryEventType.provider_returned
    land k organization_id claimed false error
  settle k organization_id claimed overdue = do
    count (λ c. record c { timed_out_total = c.timed_out_total + 1 })
    land k organization_id claimed false "provider exceeded timeout"
  settle k organization_id claimed (permanent error) = land k organization_id claimed true error
  settle k organization_id claimed (retryable error) = land k organization_id claimed false error
  settle k organization_id claimed (raised error) = land k organization_id claimed false error

  unfoldable pub attempt : ℕ → ℕ → Delivery → M (Unit {0})
  unfolding settle
  attempt k organization_id claimed =
      if provider_available claimed.channel
      then (do
        event organization_id claimed DeliveryEventType.provider_dispatched
        modify (others (2 * k + 1))
        settle k organization_id claimed (provider claimed))
      else settle k organization_id claimed (raised "No delivery provider registered")

  unfoldable pub drain_claimed : ℕ → ℕ → Option Delivery → M ℕ
  unfolding attempt
  drain_claimed k organization_id none = pure 0
  drain_claimed k organization_id (some claimed) = do
    event organization_id claimed DeliveryEventType.claimed
    attempt k organization_id claimed
    pure 1

  -- the loop over the due deliveries; `k` counts them, and the result is `sent`
  unfoldable pub drain : ℕ → ℕ → List Delivery → M ℕ
  unfolding drain_claimed
  drain k organization_id [] = pure 0
  drain k organization_id (d ∷ due) = do
    modify (others (2 * k))
    claimed ← apply organization_id d.id (clock (2 * k)) claim
    sent ← drain_claimed k organization_id claimed
    rest ← drain (k + 1) organization_id due
    pure (sent + rest)
