-- ===== src/Delivery/Methods.antt =====
-- delivery_service.py and delivery_worker.py: each method as a mover of rows along their lifecycle.
use agency_os.Prelude.{ℕ, ◌+◌, ◌*◌, String, Bool, true, false, Option, none, some, List, [], ◌∷◌}
use agency_os.Db.Tables.{Fields}
use agency_os.Delivery.Lifecycle.{Runs-one}
use agency_os.Delivery.Outbox.{Others}
use agency_os.Delivery.Promises.{
  Moves, Moves-bind, Moves-pure, Moves-apply, Respectful, moves_rules,
}
use agency_os.Delivery.Rows.{
  Delivery, Transition, claim, mark_delivered, mark_failed, schedule_retry, mark_cancel_requested,
  mark_cancelled, mark_cancelled_after_send, mark_requeued, requeue_stale, promote_due, run,
}
use agency_os.Delivery.Service.{
  get, or_fresh, note_withdrawn, withdraw, flag, cancel, note_retried, retry,
}
use agency_os.Delivery.Sweep.{
  Limits, requeue_due_retrying, note_recovered, recover_each, recover_stale, drain_org, drain_orgs,
  sweep_once,
}
use agency_os.Delivery.Worker.{
  Outcome, answered, declined, overdue, permanent, retryable, raised, note_landed, note_delivered,
  land, returned_ok, settle, attempt, drain_claimed, drain,
}

get-Moves : (o i : ℕ) → Moves (get o i)
unfolding get
get-Moves o i = search moves_rules

module _ (others : Others) (respectful : Respectful others) (now o i : ℕ) where
  or_fresh-Moves : (d : Option Delivery) → Moves (or_fresh others now o i d)
  unfolding or_fresh
  or_fresh-Moves (some d) = search moves_rules
  or_fresh-Moves none = get-Moves o i

  note_withdrawn-Moves :
      (read : Delivery) (d : Option Delivery) → Moves (note_withdrawn others now o i read d)
  unfolding note_withdrawn
  note_withdrawn-Moves read none = search moves_rules
  note_withdrawn-Moves read (some d) = search moves_rules

  withdraw-Moves : (by : Option ℕ) (read : Delivery) → Moves (withdraw others now o i by read)
  unfolding withdraw
  withdraw-Moves by read =
      search (moves_rules, respectful, note_withdrawn-Moves, or_fresh-Moves) depth 12

  flag-Moves : (by : Option ℕ) → Moves (flag others now o i by)
  unfolding flag
  flag-Moves by = search (moves_rules, respectful, or_fresh-Moves) depth 12

  pub cancel-Moves : (by : Option ℕ) → Moves (cancel others now o i by)
  unfolding cancel
  cancel-Moves by = search (moves_rules, get-Moves, withdraw-Moves, flag-Moves) depth 12

  note_retried-Moves : (d : Option Delivery) → Moves (note_retried others now o i d)
  unfolding note_retried
  note_retried-Moves none = search moves_rules
  note_retried-Moves (some d) = search moves_rules

  pub retry-Moves : Moves (retry others now o i)
  unfolding retry
  retry-Moves =
      search (moves_rules, get-Moves, respectful, note_retried-Moves, or_fresh-Moves) depth 12

note_landed-Moves : (o : ℕ) (t : Transition) (d : Option Delivery) → Moves (note_landed o t d)
unfolding note_landed
note_landed-Moves o t none = search moves_rules
note_landed-Moves o (mark_cancelled_after_send x) (some d) = search moves_rules
note_landed-Moves o (mark_failed x) (some d) = search moves_rules
note_landed-Moves o (schedule_retry n x) (some d) = search moves_rules
note_landed-Moves o claim (some d) = search moves_rules
note_landed-Moves o (mark_delivered m) (some d) = search moves_rules
note_landed-Moves o (mark_cancel_requested by) (some d) = search moves_rules
note_landed-Moves o (mark_cancelled by) (some d) = search moves_rules
note_landed-Moves o mark_requeued (some d) = search moves_rules
note_landed-Moves o (requeue_stale b) (some d) = search moves_rules

note_delivered-Moves : (o : ℕ) (d : Option Delivery) → Moves (note_delivered o d)
unfolding note_delivered
note_delivered-Moves o none = search moves_rules
note_delivered-Moves o (some d) = search moves_rules

note_recovered-Moves : (l : Delivery) (d : Option Delivery) → Moves (note_recovered l d)
unfolding note_recovered
note_recovered-Moves l none = search moves_rules
note_recovered-Moves l (some d) = search moves_rules

recover_each-Moves :
    (now before : ℕ) (stale : List Delivery) → Moves (recover_each now before stale)
unfolding recover_each
recover_each-Moves now before [] = search moves_rules
recover_each-Moves now before (d ∷ stale) =
    Moves-bind _ _ (Moves-apply d.organization_id d.id now (requeue_stale before)) λ requeued.
      Moves-bind _ _ (note_recovered-Moves d requeued)
        λ n. Moves-bind _ _ (recover_each-Moves now before stale) λ rest. Moves-pure (n + rest)

requeue_due_retrying-Moves : (now : ℕ) → Moves (requeue_due_retrying now)
unfolding requeue_due_retrying run
requeue_due_retrying-Moves now = record { moves = λ o. Runs-one (promote_due now) o.deliveries }

module _ (base : ℕ) (provider : Delivery → Outcome) (others : Others)
    (respectful : Respectful others) (clock : ℕ → ℕ) where
  land-Moves :
      (k o : ℕ) (d : Delivery) (p : Bool) (x : String)
      → Moves (land base provider others clock k o d p x)
  unfolding land
  land-Moves k o d p x = search (moves_rules, note_landed-Moves) depth 12

  returned_ok-Moves :
      (k o : ℕ) (d : Delivery) (m : Fields) → Moves (returned_ok base provider others clock k o d m)
  unfolding returned_ok
  returned_ok-Moves k o d m = search (moves_rules, note_delivered-Moves) depth 12

  settle-Moves :
      (k o : ℕ) (d : Delivery) (x : Outcome) → Moves (settle base provider others clock k o d x)
  unfolding settle
  settle-Moves k o d (answered m) = returned_ok-Moves k o d m
  settle-Moves k o d (declined x) = search (moves_rules, land-Moves) depth 12
  settle-Moves k o d overdue = search (moves_rules, land-Moves) depth 12
  settle-Moves k o d (permanent x) = land-Moves k o d true x
  settle-Moves k o d (retryable x) = land-Moves k o d false x
  settle-Moves k o d (raised x) = land-Moves k o d false x

  attempt-Moves : (k o : ℕ) (d : Delivery) → Moves (attempt base provider others clock k o d)
  unfolding attempt
  attempt-Moves k o d = search (moves_rules, respectful, settle-Moves) depth 12

  drain_claimed-Moves :
      (k o : ℕ) (d : Option Delivery) → Moves (drain_claimed base provider others clock k o d)
  unfolding drain_claimed
  drain_claimed-Moves k o none = search moves_rules
  drain_claimed-Moves k o (some d) = search (moves_rules, attempt-Moves) depth 12

  pub drain-Moves :
      (k o : ℕ) (due : List Delivery) → Moves (drain base provider others clock k o due)
  unfolding drain
  drain-Moves k o [] = search moves_rules
  drain-Moves k o (d ∷ due) = Moves-bind _ _ (respectful (2 * k)) λ t.
      Moves-bind _ _ (Moves-apply o d.id (clock (2 * k)) claim) λ claimed.
        Moves-bind _ _ (drain_claimed-Moves k o claimed)
          λ sent. Moves-bind _ _ (drain-Moves (k + 1) o due) λ rest. Moves-pure (sent + rest)

module _ (limits : Limits) (provider : Delivery → Outcome) (others : Others)
    (respectful : Respectful others) (clock : ℕ → ℕ) where
  drain_org-Moves : (k o : ℕ) → Moves (drain_org limits provider others clock k o)
  unfolding drain_org
  drain_org-Moves k o =
      search
        (moves_rules, drain-Moves limits.retry_base_seconds provider others respectful clock k o)

  drain_orgs-Moves :
      (k : ℕ) (orgs : List ℕ) → Moves (drain_orgs limits provider others clock k orgs)
  unfolding drain_orgs
  drain_orgs-Moves k [] = search moves_rules
  drain_orgs-Moves k (org ∷ orgs) = Moves-bind _ _ (drain_org-Moves k org) λ sent.
      Moves-bind _ _ (drain_orgs-Moves (k + limits.batch_size) orgs)
        λ rest. Moves-pure (sent + rest)

  -- A sweep of the delivery worker, whatever the providers answer and whatever other sessions commit
  -- between its statements by transitions and promotions, changes the table only by a sequence of
  -- those, of which each one, run on the table that those before it have left, leaves the status of a
  -- row or moves it along one edge of the state machine, and keeps every column of a delivered row;
  -- no row comes or goes.
  pub sweep_once-Moves : (now : ℕ) → Moves (sweep_once limits provider others clock now)
  unfolding sweep_once recover_stale
  sweep_once-Moves now =
      search (moves_rules, recover_each-Moves, requeue_due_retrying-Moves, drain_orgs-Moves) depth
        14
