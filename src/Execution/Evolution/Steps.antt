-- ===== src/Execution/Evolution/Steps.antt =====
-- repositories/workflow_execution.py: each guarded UPDATE and the insert takes every row along one edge
-- of its lifecycle at most.
use agency_os.Prelude.{
  ℕ, ◌≡◌, refl, Bool, true, false, some, List, [], ◌∷◌, arith, Bool-cases, inl, inr,
}
use agency_os.Db.Tables.{
  Execution, ExecutionStatus, queued, running, failed, retrying, is_queued, is_running, is_retrying,
  is_pending, is_retryable,
}
use agency_os.Execution.Service.Queueing.{collides}
use agency_os.Execution.Service.Running.{failure_status}
use agency_os.Execution.Lifecycle
use agency_os.Execution.Lifecycle.{Edge, RowStep}
use agency_os.Execution.Repository.{is_row, find_row, update_row}
use agency_os.Execution.Statements.{
  Update, starting, succeeding, failing, failing_queued, cancelling_after_run, cancelling_pending,
  flagging, timing_out, requeuing, requeuing_due, guard_of, values_of, Statement, updating,
  inserting, run, Advances, kept, moved, RowsAdvance,
}

same_key : {a b : Execution} (o i : ℕ) → Advances a b → is_row o i a ≡ is_row o i b
same_key {a} o i kept = refl
same_key o i (moved s) = let q = s.same in cc (q.id, q.organization_id)

RowsAdvance-refl : (xs : List Execution) → RowsAdvance xs xs
RowsAdvance-refl xs = record { row = λ o i e h. (e, h, kept) }

RowsAdvance-cons :
    (a b : Execution) (xs ys : List Execution)
    → Advances a b
    → RowsAdvance xs ys
    → RowsAdvance (a ∷ xs) (b ∷ ys)
unfolding find_row
RowsAdvance-cons a b xs ys r f = record {
  row = λ o i e h. elim (Bool-cases (is_row o i a)) [
    | inl yes' ↦
        let here' : a ≡ e = (ground arith) in (b, rw (← same_key o i r) (rw yes'), (rw here' at r))
    | inr no' ↦
        let (e', h', r') = f.row o i e (rw no' at h) in (e', rw (← same_key o i r) (rw no' h'), r')
  ];
}

update_row-RowsAdvance :
    (o i : ℕ) (guard : Execution → Bool) (values : Execution → Execution)
    → ((e : Execution) → guard e ≡ true → RowStep e (values e))
    → (xs : List Execution) → RowsAdvance xs (update_row o i guard values xs).0
unfolding update_row
update_row-RowsAdvance o i guard values step [] = RowsAdvance-refl []
update_row-RowsAdvance o i guard values step (x ∷ xs) = elim (Bool-cases (is_row o i x)) [
  | inl here' ↦ rw here' (elim (Bool-cases (guard x)) [
    | inl holds ↦
        rw holds (RowsAdvance-cons x (values x) xs xs (moved (step x holds)) (RowsAdvance-refl xs))
    | inr fails ↦ rw fails (RowsAdvance-refl (x ∷ xs))
  ])
  | inr other ↦
      rw other (RowsAdvance-cons x x xs _ kept (update_row-RowsAdvance o i guard values step xs))
]

-- a row that is found has another id than a row that collides with none
found-ne :
    (e x : Execution) (o i : ℕ) (xs : List Execution)
    → collides e xs ≡ false
    → find_row o i xs ≡ some x
    → is_row o i e ≡ false
unfolding collides find_row
found-ne e x o i [] c f = cc
found-ne e x o i (y ∷ ys) c f = ground (arith, found-ne e x o i ys)

RowsAdvance-insert :
    (e : Execution) (xs : List Execution) → collides e xs ≡ false → RowsAdvance xs (e ∷ xs)
unfolding find_row
RowsAdvance-insert e xs c = record { row = λ o i x f. (x, rw (found-ne e x o i xs c f) f, kept) }

-- the edges, from the tests of the WHERE clauses
from_queued :
    (s : ExecutionStatus) (t : ExecutionStatus) → is_queued s ≡ true → Edge queued t → Edge s t
from_queued queued t h e = e
from_queued _ t h e = cc

from_running : (s t : ExecutionStatus) → is_running s ≡ true → Edge running t → Edge s t
from_running running t h e = e
from_running _ t h e = cc

from_pending : (s : ExecutionStatus) → is_pending s ≡ true → Edge s ExecutionStatus.cancelled
from_pending queued h = Lifecycle.cancel_queued
from_pending retrying h = Lifecycle.cancel_retrying
from_pending _ h = cc

from_retryable : (s : ExecutionStatus) → is_retryable s ≡ true → Edge s queued
from_retryable failed h = Lifecycle.retry_failed
from_retryable ExecutionStatus.cancelled h = Lifecycle.retry_cancelled
from_retryable ExecutionStatus.timed_out h = Lifecycle.retry_timed_out
from_retryable _ h = cc

from_retrying : (s : ExecutionStatus) → is_retrying s ≡ true → Edge s queued
from_retrying retrying h = Lifecycle.requeue_due
from_retrying _ h = cc

from_running_failure :
    (s : ExecutionStatus) (retry : Bool) → is_running s ≡ true → Edge s (failure_status retry)
from_running_failure running true h = Lifecycle.reschedule
from_running_failure running false h = Lifecycle.give_up
from_running_failure _ retry h = cc

flagged : (s : ExecutionStatus) → is_running s ≡ true → Edge s s
flagged running h = Lifecycle.flag
flagged _ h = cc

-- the edge of each UPDATE, from the status that its WHERE asks for
update-RowStep : (u : Update) (e : Execution) → guard_of u e ≡ true → RowStep e (values_of u e)
unfolding guard_of values_of
update-RowStep (starting now) e h = record {
  edge = from_queued e.status _ (ground arith) Lifecycle.claim;
  same = ground arith;
  attempts = ground arith;
}
update-RowStep (succeeding output t) e h = record {
  edge = from_running e.status _ (ground arith) Lifecycle.succeed;
  same = ground arith;
  attempts = ground arith;
}
update-RowStep (failing error retry due t) e h = record {
  edge = from_running_failure e.status retry (ground arith);
  same = ground arith;
  attempts = ground arith;
}
update-RowStep (failing_queued error t) e h = record {
  edge = from_queued e.status _ h Lifecycle.abandon;
  same = ground arith;
  attempts = ground arith;
}
update-RowStep (cancelling_after_run t) e h = record {
  edge = from_running e.status _ (ground arith) Lifecycle.abort;
  same = ground arith;
  attempts = ground arith;
}
update-RowStep (cancelling_pending t by f) e h = record {
  edge = from_pending e.status (ground arith);
  same = ground arith;
  attempts = ground arith;
}
update-RowStep (flagging t by) e h = record {
  edge = flagged e.status (ground arith);
  same = ground arith;
  attempts = ground arith;
}
update-RowStep (timing_out error t) e h = record {
  edge = from_running e.status _ (ground arith) Lifecycle.time_out;
  same = ground arith;
  attempts = ground arith;
}
update-RowStep requeuing e h = record {
  edge = from_retryable e.status h;
  same = ground arith;
  attempts = ground arith;
}
update-RowStep (requeuing_due before) e h = record {
  edge = from_retrying e.status (ground arith);
  same = ground arith;
  attempts = ground arith;
}

pub run-RowsAdvance : (s : Statement) (xs : List Execution) → RowsAdvance xs (run s xs)
unfolding run
run-RowsAdvance (updating o i u) xs =
    update_row-RowsAdvance o i (guard_of u) (values_of u) (update-RowStep u) xs
run-RowsAdvance (inserting e) xs = elim (Bool-cases (collides e xs)) [
  | inl taken ↦ rw taken (RowsAdvance-refl xs)
  | inr free ↦ rw free (RowsAdvance-insert e xs free)
]
