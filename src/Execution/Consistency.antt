-- ===== src/Execution/Consistency.antt =====
-- workflow_execution_service.py: what each status says of the other columns of its row.
use agency_os.Prelude.{
  ℕ, ◌≤◌, ◌≡◌, Bool, true, is_some, Option, none, List, [], ◌∷◌, All, arith, Bool-cases, inl, inr,
}
use agency_os.Db.Tables.{
  Execution, queued, running, succeeded, failed, retrying, cancelled, timed_out,
}
use agency_os.Execution.Repository.{is_row, update_row, update_where}
use agency_os.Execution.Service.Helpers.{Env, audit, timeline, count}
use agency_os.Execution.Service.Queueing.{
  WorkflowExecutionCreate, Fresh, new_execution, violates, enqueue,
}
use agency_os.Execution.Guarantee.{Contract, KeptByUpdates, Guarantees}

pub record IsConsistent (e : Execution) : Type 0 where
  pub queued_fresh : e.status ≡ queued → (e.cancel_requested_at ≡ none) × (e.next_retry_at ≡ none)
  pub running_started :
      e.status ≡ running
      → (is_some e.started_at ≡ true) × (1 ≤ e.attempts) × (e.next_retry_at ≡ none)
  pub retrying_due :
      e.status ≡ retrying
      → (is_some e.next_retry_at ≡ true)
        × (e.cancel_requested_at ≡ none)
        × (1 ≤ e.attempts)
        × (is_some e.error ≡ true)
  pub succeeded_done :
      e.status ≡ succeeded
      → (is_some e.output ≡ true)
        × (is_some e.finished_at ≡ true)
        × (e.cancel_requested_at ≡ none)
        × (1 ≤ e.attempts)
  pub failed_done :
      e.status ≡ failed
      → (is_some e.error ≡ true)
        × (is_some e.finished_at ≡ true)
        × (e.cancel_requested_at ≡ none)
        × (e.next_retry_at ≡ none)
  pub timed_out_done :
      e.status ≡ timed_out
      → (is_some e.error ≡ true) × (is_some e.finished_at ≡ true) × (e.cancel_requested_at ≡ none)
  pub cancelled_flagged :
      e.status ≡ cancelled → (is_some e.cancel_requested_at ≡ true) × (is_some e.finished_at ≡ true)

update_row-All :
    (o i : ℕ) (guard : Execution → Bool) (values : Execution → Execution)
    → ((e : Execution) → guard e ≡ true → IsConsistent e → IsConsistent (values e))
    → (xs : List Execution) → All IsConsistent xs
    → All IsConsistent (update_row o i guard values xs).0
unfolding update_row
update_row-All o i guard values step [] h = h
update_row-All o i guard values step (x ∷ xs) h = elim (Bool-cases (is_row o i x)) [
  | inl here ↦ rw here (elim (Bool-cases (guard x)) [
    | inl holds ↦ rw holds (step x holds h.0, h.1)
    | inr fails ↦ rw fails h
  ])
  | inr other ↦ rw other (h.0, update_row-All o i guard values step xs h.1)
]

-- Consistent rows stay consistent.
abbrev pub consistency : Contract
consistency = record {
  Rel = λ xs ys. All IsConsistent xs → All IsConsistent ys;
  rel_refl = λ xs h. h;
  rel_trans = λ xs ys zs f g h. g (f h);
}

update_where-Consistent :
    (o i : ℕ) (guard : Execution → Bool) (values : Execution → Execution)
    → ((e : Execution) → guard e ≡ true → IsConsistent e → IsConsistent (values e))
    → Guarantees consistency (update_where o i guard values)
unfolding update_where
update_where-Consistent o i guard values step = record {
  at = λ db. update_row-All o i guard values step db.executions;
}

new_execution-IsConsistent :
    (d : WorkflowExecutionCreate) (o : ℕ) (by : Option ℕ) (fresh : Fresh)
    → IsConsistent (new_execution d o by fresh)
unfolding new_execution
new_execution-IsConsistent d o by fresh = ground arith

enqueue-Consistent :
    (env : Env) (e : Execution) (by : Option ℕ)
    → IsConsistent e
    → Guarantees consistency (enqueue env e by)
unfolding enqueue audit timeline count
enqueue-Consistent env e by c = record {
  at = λ db h. elim (Bool-cases (violates e db)) [
    | inl broken ↦ rw broken h
    | inr fine ↦ rw fine (c, h)
  ];
}

-- Every guarded UPDATE and the insert keep the rows consistent.
pub consistency_kept : KeptByUpdates consistency
consistency_kept = record {
  started = λ o i now. update_where-Consistent o i _ _ (λ e h c. ground arith);
  succeeded = λ o i output t. update_where-Consistent o i _ _ (λ e h c. ground arith);
  failed = λ o i error retry due t. update_where-Consistent o i _ _ (λ e h c. ground arith);
  failed_if_queued = λ o i error t. update_where-Consistent o i _ _ (λ e h c. ground arith);
  cancelled_after_run = λ o i t. update_where-Consistent o i _ _ (λ e h c. ground arith);
  cancelled_if_pending = λ o i t by f. update_where-Consistent o i _ _ (λ e h c. ground arith);
  cancel_requested = λ o i t by. update_where-Consistent o i _ _ (λ e h c. ground arith);
  timed_out = λ o i error t. update_where-Consistent o i _ _ (λ e h c. ground arith);
  requeued = λ o i. update_where-Consistent o i _ _ (λ e h c. ground arith);
  requeued_due = λ o i before. update_where-Consistent o i _ _ (λ e h c. ground arith);
  enqueued =
      λ env d o by fresh. enqueue-Consistent env _ by (new_execution-IsConsistent d o by fresh);
}
