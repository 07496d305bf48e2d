-- ===== src/Delivery/Lifecycle.antt =====
-- The state machine of DeliveryStatus (models/enums.py), with the recovery of stale rows, against the
-- statements of repositories/delivery.py.
use agency_os.Prelude.{
  ℕ, ◌≡◌, refl, sym, ◌∙◌, ap, ◌++◌, Bool, true, false, ◌&&◌, List, [], ◌∷◌, arith, Bool-cases, inl,
  inr,
}
use agency_os.Db.Rows.{Rowwise, Rowwise-update_rows}
use agency_os.Delivery.Rows.{
  Delivery, DeliveryStatus, queued, processing, delivered, retrying, failed, cancelled, same_status,
  Transition, claim, mark_delivered, mark_failed, schedule_retry, mark_cancel_requested,
  mark_cancelled, mark_cancelled_after_send, mark_requeued, requeue_stale, guard_of, values_of,
  keyed, Statement, transition, promote_due, is_promotable, promote_values, run, execute,
}

pub data Edge : DeliveryStatus → DeliveryStatus → Type 0 where
  claimed : Edge queued processing
  sent : Edge processing delivered
  gave_up : Edge processing failed
  backed_off : Edge processing retrying
  flagged : Edge processing processing
  stopped : Edge processing cancelled
  recovered : Edge processing queued
  promoted : Edge retrying queued
  withdrawn : Edge queued cancelled
  called_off : Edge retrying cancelled
  retried_failed : Edge failed queued
  retried_cancelled : Edge cancelled queued

-- one edge at most
pub data Hop : DeliveryStatus → DeliveryStatus → Type 0 where
  stay : {a : DeliveryStatus} → Hop a a
  along : {a b : DeliveryStatus} → Edge a b → Hop a b

-- What one statement may do to a row: its status moves along one edge at most, a delivered row keeps
-- every column, and what was to be sent, and to whom, stays.
pub record Advances (d d' : Delivery) : Type 0 where
  pub moved : Hop d.status d'.status
  pub final : d.status ≡ delivered → d' ≡ d
  pub same_id : d'.id ≡ d.id
  pub same_organization : d'.organization_id ≡ d.organization_id
  pub same_recipient : d'.recipient_user_id ≡ d.recipient_user_id
  pub same_body : d'.body ≡ d.body
  pub same_key : d'.idempotency_key ≡ d.idempotency_key
  pub same_budget : d'.max_attempts ≡ d.max_attempts

Advances-refl : (d : Delivery) → Advances d d
Advances-refl d = record {
  moved = stay;
  final = λ h. refl;
  same_id = refl;
  same_organization = refl;
  same_recipient = refl;
  same_body = refl;
  same_key = refl;
  same_budget = refl;
}

-- Each of the statements, run on the table that those before it have left, advances every row, and
-- adds or removes none.
abbrev pub Stepwise : List Statement → List Delivery → Type 0
Stepwise [] rows = Unit {0}
Stepwise (s ∷ ss) rows = Rowwise Advances rows (run s rows) × Stepwise ss (run s rows)

-- the table went from `xs` to `ys` by statements that advance every row
pub record Runs (xs ys : List Delivery) : Type 0 where
  pub statements : List Statement
  pub result : ys ≡ execute statements xs
  pub stepwise : Stepwise statements xs

and_right : (a b : Bool) → (a && b) ≡ true → b ≡ true
and_right true b h = h
and_right false b h = cc

-- the edge of each transition, from the status that its WHERE asks for
path_of :
    (t : Transition) (at : ℕ) (d : Delivery)
    → guard_of t at d ≡ true
    → Hop d.status (values_of t at d).status
unfolding guard_of values_of
path_of claim at d h = let e : d.status ≡ queued = ground arith in rw e (along claimed)
path_of (mark_delivered m) at d h =
    let e : d.status ≡ processing = ground arith in rw e (along sent)
path_of (mark_failed e) at d h =
    let e : d.status ≡ processing = ground arith in rw e (along gave_up)
path_of (schedule_retry n e) at d h =
    let e : d.status ≡ processing = ground arith in rw e (along backed_off)
path_of (mark_cancel_requested by) at d h = stay
path_of (mark_cancelled by) at d h = elim (Bool-cases (same_status d.status queued)) [
  | inl at_queued ↦ let e : d.status ≡ queued = ground arith in rw e (along withdrawn)
  | inr other ↦ let e : d.status ≡ retrying = ground arith in rw e (along called_off)
]
path_of (mark_cancelled_after_send x) at d h =
    let e : d.status ≡ processing = ground arith in rw e (along stopped)
path_of mark_requeued at d h = elim (Bool-cases (same_status d.status failed)) [
  | inl at_failed ↦ let e : d.status ≡ failed = ground arith in rw e (along retried_failed)
  | inr other ↦ let e : d.status ≡ cancelled = ground arith in rw e (along retried_cancelled)
]
path_of (requeue_stale before) at d h =
    let e : d.status ≡ processing = ground arith in rw e (along recovered)

-- no statement matches a delivered row
not_delivered :
    (t : Transition) (at : ℕ) (d : Delivery) → guard_of t at d ≡ true → d.status ≡ delivered → ⊥
unfolding guard_of
not_delivered claim at d h e = ground arith
not_delivered (mark_delivered m) at d h e = ground arith
not_delivered (mark_failed x) at d h e = ground arith
not_delivered (schedule_retry n x) at d h e = ground arith
not_delivered (mark_cancel_requested by) at d h e = ground arith
not_delivered (mark_cancelled by) at d h e = ground arith
not_delivered (mark_cancelled_after_send x) at d h e = ground arith
not_delivered mark_requeued at d h e = ground arith
not_delivered (requeue_stale before) at d h e = ground arith

-- what no SET clause touches
abbrev Kept : Delivery → Delivery → Type 0
Kept d d' =
    (d'.id ≡ d.id)
    × (d'.organization_id ≡ d.organization_id)
    × (d'.recipient_user_id ≡ d.recipient_user_id)
    × (d'.body ≡ d.body)
    × (d'.idempotency_key ≡ d.idempotency_key)
    × (d'.max_attempts ≡ d.max_attempts)

kept : (t : Transition) (at : ℕ) (d : Delivery) → Kept d (values_of t at d)
unfolding values_of
kept claim at d = (refl, refl, refl, refl, refl, refl)
kept (mark_delivered m) at d = (refl, refl, refl, refl, refl, refl)
kept (mark_failed e) at d = (refl, refl, refl, refl, refl, refl)
kept (schedule_retry n e) at d = (refl, refl, refl, refl, refl, refl)
kept (mark_cancel_requested by) at d = (refl, refl, refl, refl, refl, refl)
kept (mark_cancelled by) at d = (refl, refl, refl, refl, refl, refl)
kept (mark_cancelled_after_send x) at d = (refl, refl, refl, refl, refl, refl)
kept mark_requeued at d = (refl, refl, refl, refl, refl, refl)
kept (requeue_stale before) at d = (refl, refl, refl, refl, refl, refl)

moved_row :
    (d d' : Delivery)
    → Hop d.status d'.status
    → (d.status ≡ delivered → ⊥)
    → Kept d d'
    → Advances d d'
moved_row d d' r n (id, organization_id, recipient, body, key, budget) = record {
  moved = r;
  final = λ h. absurd (n h);
  same_id = id;
  same_organization = organization_id;
  same_recipient = recipient;
  same_body = body;
  same_key = key;
  same_budget = budget;
}

run-Rowwise : (s : Statement) (rows : List Delivery) → Rowwise Advances rows (run s rows)
unfolding run
run-Rowwise (transition o i at t) rows =
    Rowwise-update_rows Advances (keyed o i (guard_of t at)) (values_of t at) Advances-refl
      (λ d h.
        let hit : guard_of t at d ≡ true = and_right _ _ h in
        moved_row d (values_of t at d) (path_of t at d hit) (not_delivered t at d hit)
          (kept t at d))
      rows
run-Rowwise (promote_due at) rows =
    Rowwise-update_rows Advances (is_promotable at) (promote_values at) Advances-refl
      (λ d h.
        let e : d.status ≡ retrying = ground arith in
        moved_row d (promote_values at d) (rw e (along promoted)) (λ x. cc)
          (refl, refl, refl, refl, refl, refl))
      rows

-- Whatever transitions and promotions the workers, the recovery and the users issue, and in whatever
-- order the database runs them, each single statement leaves the status of every delivery or moves it
-- along one edge of the state machine, keeps every column of a delivered one, and keeps recipient,
-- body, idempotency key and budget of attempts; no row comes or goes.
pub execute-Stepwise : (ss : List Statement) (rows : List Delivery) → Stepwise ss rows
execute-Stepwise [] rows = tt
execute-Stepwise (s ∷ ss) rows = (run-Rowwise s rows, execute-Stepwise ss (run s rows))

execute-++ :
    (ss ts : List Statement) (rows : List Delivery)
    → execute (ss ++ ts) rows ≡ execute ts (execute ss rows)
unfolding execute
execute-++ [] ts rows = refl
execute-++ (s ∷ ss) ts rows = execute-++ ss ts (run s rows)

pub Runs-refl : (xs : List Delivery) → Runs xs xs
unfolding execute
Runs-refl xs = record { statements = []; result = refl; stepwise = tt }

pub Runs-trans : (xs ys zs : List Delivery) → Runs xs ys → Runs ys zs → Runs xs zs
Runs-trans xs ys zs f g = record {
  statements = f.statements ++ g.statements;
  result =
      g.result ∙ ap (execute g.statements) f.result ∙ sym (execute-++ f.statements g.statements xs);
  stepwise = execute-Stepwise (f.statements ++ g.statements) xs;
}

pub Runs-one : (s : Statement) (xs : List Delivery) → Runs xs (run s xs)
unfolding execute
Runs-one s xs = record { statements = s ∷ []; result = refl; stepwise = (run-Rowwise s xs, tt) }
