-- ===== src/Delivery/Columns.antt =====
-- repositories/delivery.py: the columns that go with each status of a delivery.
use agency_os.Prelude.{ℕ, ◌≡◌, Bool, true, ◌&&◌, not, List, [], ◌∷◌, leb, arith, is_some, All}
use agency_os.Db.Rows.{All-update_rows}
use agency_os.Delivery.Rows.{
  Delivery, DeliveryStatus, queued, processing, delivered, retrying, failed, cancelled, Transition,
  claim, mark_delivered, mark_failed, schedule_retry, mark_cancel_requested, mark_cancelled,
  mark_cancelled_after_send, mark_requeued, requeue_stale, guard_of, values_of, keyed, Statement,
  transition, promote_due, is_promotable, promote_values, run, execute,
}

-- the columns that a status asks for: in flight since, due at, an error, the time of each ending
abbrev pub columns : DeliveryStatus → Bool → Bool → Bool → Bool → Bool → Bool → Bool
columns queued started due error sent lost stopped =
    not started && not sent && not lost && not stopped
columns processing started due error sent lost stopped =
    started && not due && not error && not sent && not lost && not stopped
columns retrying started due error sent lost stopped =
    not started && due && error && not sent && not lost && not stopped
columns delivered started due error sent lost stopped =
    not started && not due && not error && sent && not lost && not stopped
columns failed started due error sent lost stopped =
    not started && not due && error && not sent && lost && not stopped
columns cancelled started due error sent lost stopped =
    not started && not due && not sent && not lost && stopped

-- and at least one attempt for a delivery that is in flight, waits for another, or is settled by a provider
abbrev pub tried : DeliveryStatus → ℕ → Bool
tried queued attempts = true
tried cancelled attempts = true
tried _ attempts = leb 1 attempts

abbrev pub fits : Delivery → Bool
fits d =
    columns d.status (is_some d.attempt_started_at) (is_some d.next_attempt_at)
      (is_some d.last_error) (is_some d.delivered_at) (is_some d.failed_at) (is_some d.cancelled_at)
    && tried d.status d.attempts

fits_after :
    (t : Transition) (at : ℕ) (d : Delivery)
    → guard_of t at d ≡ true
    → fits d ≡ true
    → fits (values_of t at d) ≡ true
unfolding guard_of values_of
fits_after claim at d h f = ground arith
fits_after (mark_delivered m) at d h f = ground arith
fits_after (mark_failed x) at d h f = ground arith
fits_after (schedule_retry n x) at d h f = ground arith
fits_after (mark_cancel_requested by) at d h f = ground arith
fits_after (mark_cancelled by) at d h f = ground arith
fits_after (mark_cancelled_after_send x) at d h f = ground arith
fits_after mark_requeued at d h f = ground arith
fits_after (requeue_stale before) at d h f = ground arith

fits_promoted :
    (at : ℕ) (d : Delivery)
    → is_promotable at d ≡ true
    → fits d ≡ true
    → fits (promote_values at d) ≡ true
fits_promoted at d h f = ground arith

and_right : (a b : Bool) → (a && b) ≡ true → b ≡ true
and_right a b h = ground arith

run-fits :
    (s : Statement) (rows : List Delivery)
    → All (λ d. fits d ≡ true) rows
    → All (λ d. fits d ≡ true) (run s rows)
unfolding run
run-fits (transition o i at t) rows =
    All-update_rows _ (keyed o i (guard_of t at)) (values_of t at)
      (λ d h. fits_after t at d (and_right _ _ h)) rows
run-fits (promote_due at) rows =
    All-update_rows _ (is_promotable at) (promote_values at) (fits_promoted at) rows

-- The columns of every delivery fit its status, whatever statements are run in whatever order: only a
-- delivered row has a time of delivery, only a failed one a time of failure, only a cancelled one a
-- time of cancellation; a row in flight has its start and no error, a row that waits for a retry has
-- an error and a due time; and all of these but queued and cancelled have been attempted.
pub execute-fits :
    (ss : List Statement) (rows : List Delivery)
    → All (λ d. fits d ≡ true) rows
    → All (λ d. fits d ≡ true) (execute ss rows)
unfolding execute
execute-fits [] rows f = f
execute-fits (s ∷ ss) rows f = execute-fits ss (run s rows) (run-fits s rows f)
