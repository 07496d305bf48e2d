-- ===== src/Delivery/Sweep.antt =====
-- backend/app/workers/delivery_worker.py: `_recover_stale`, `_drain_org` and `sweep_once`, and the
-- listings of repositories/delivery.py that they read. An organization whose drain raises is not
-- modelled: nothing in the modelled drain raises.
use agency_os.Prelude.{
  ℕ, ◌+◌, ◌-◌, ◌*◌, ◌&&◌, Option, none, some, List, [], ◌∷◌, ◌==◌, leb, select, take, length,
  contains, if◌then◌else◌,
}
use agency_os.Db.Rows.{update_rows, order_by}
use agency_os.Db.Store.{◌>>=◌, ◌>>◌, pure, gets}
use agency_os.Delivery.Rows.{
  Delivery, queued, same_status, requeue_stale, is_due, is_stale, is_promotable, promote_values,
}
use agency_os.Delivery.Outbox.{M, Others, DeliveryEventType, event, count, apply}
use agency_os.Delivery.Worker.{Outcome, drain}

-- the limits of core/config.py
pub record Limits : Type 0 where
  pub batch_size : ℕ
  pub orgs_per_sweep : ℕ
  pub retry_base_seconds : ℕ
  pub recovery_seconds : ℕ

unfoldable pub list_stale_processing : ℕ → ℕ → List Delivery → List Delivery
list_stale_processing before limit rows =
    take limit (order_by (λ d e. leb d.updated_at e.updated_at) (select (is_stale before) rows))

-- the organizations of the rows, each at its first row
unfoldable pub organizations : List ℕ → List Delivery → List ℕ
organizations seen [] = []
organizations seen (d ∷ rows) =
    let fresh = d.organization_id ∷ organizations (d.organization_id ∷ seen) rows in
    let again = organizations seen rows in if contains seen d.organization_id then again else fresh

-- `GROUP BY organization_id ORDER BY min(scheduled_for) LIMIT limit` of the queued rows
unfoldable pub get_queued_orgs : ℕ → List Delivery → List ℕ
unfolding organizations
get_queued_orgs limit rows = take limit (
    organizations [] (
      order_by (λ d e. leb d.scheduled_for e.scheduled_for)
        (select (λ d. same_status d.status queued) rows)))

unfoldable pub get_queued_for_org : ℕ → ℕ → ℕ → List Delivery → List Delivery
get_queued_for_org organization_id now limit rows = take limit (
    order_by (λ d e. leb d.scheduled_for e.scheduled_for)
      (select (λ d. d.organization_id == organization_id && is_due now d) rows))

unfoldable pub requeue_due_retrying : ℕ → M ℕ
requeue_due_retrying now o =
    pure (length (select (is_promotable now) o.deliveries))
      (record o { deliveries = update_rows (is_promotable now) (promote_values now) o.deliveries })

unfoldable pub note_recovered : Delivery → Option Delivery → M ℕ
note_recovered listed none = pure 0
note_recovered listed (some d) = do
  event listed.organization_id listed DeliveryEventType.timed_out
  event listed.organization_id listed DeliveryEventType.recovery_guard
  pure 1

-- the loop of `_recover_stale`
unfoldable pub recover_each : ℕ → ℕ → List Delivery → M ℕ
unfolding note_recovered
recover_each now before [] = pure 0
recover_each now before (d ∷ stale) = do
  requeued ← apply d.organization_id d.id now (requeue_stale before)
  n ← note_recovered d requeued
  rest ← recover_each now before stale
  pure (n + rest)

module _ (limits : Limits) (provider : Delivery → Outcome) (others : Others) (clock : ℕ → ℕ) where
  unfoldable pub recover_stale : ℕ → M ℕ
  recover_stale now = do
    let before = now - limits.recovery_seconds
    stale ← gets (λ o. list_stale_processing before limits.batch_size o.deliveries)
    recovered ← recover_each now before stale
    count (λ c. record c { recovered_total = c.recovered_total + recovered })
    pure recovered

  unfoldable pub drain_org : ℕ → ℕ → M ℕ
  drain_org k organization_id = do
    due ←
        gets
          (λ o. get_queued_for_org organization_id (clock (2 * k)) limits.batch_size o.deliveries)
    drain limits.retry_base_seconds provider others clock k organization_id due

  -- a batch takes `batch_size` points of time at most
  unfoldable pub drain_orgs : ℕ → List ℕ → M ℕ
  unfolding drain_org
  drain_orgs k [] = pure 0
  drain_orgs k (organization_id ∷ orgs) = do
    sent ← drain_org k organization_id
    rest ← drain_orgs (k + limits.batch_size) orgs
    pure (sent + rest)

  -- the counts that the sweep returns; `failed`, `retried` and `cancelled` stay 0
  pub record Swept : Type 0 where
    pub delivered : ℕ
    pub stale_requeued : ℕ
    pub retries_promoted : ℕ

  unfoldable pub sweep_once : ℕ → M Swept
  unfolding recover_stale drain_orgs
  sweep_once now = do
    stale_requeued ← recover_stale now
    retries_promoted ← requeue_due_retrying now
    orgs ← gets (λ o. get_queued_orgs limits.orgs_per_sweep o.deliveries)
    delivered ← drain_orgs 0 orgs
    pure (record {
      delivered = delivered;
      stale_requeued = stale_requeued;
      retries_promoted = retries_promoted;
    })
