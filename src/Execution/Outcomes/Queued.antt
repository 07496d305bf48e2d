-- ===== src/Execution/Outcomes/Queued.antt =====
-- What `queue` admits and what it refuses.
use agency_os.Prelude.{
  ℕ, ap, ◌∙◌, ◌+◌, ◌≤◌, ◌≡◌, refl, Bool, true, false, not, Option, none, some, List, ◌∷◌, arith,
  ◌||◌, Bool-cases, inl, inr, if◌then◌else◌, String, leb,
}
use text.Mathlib.TextPositions.{eq_refl}
use agency_os.Automation.{is_enabled, block_if_paused}
use agency_os.Db.Tables.{Db, Execution, queued, is_active, Workflow, ActivityLog}
use agency_os.Db.Session.{AppError, ok, err}
use agency_os.Execution.Outcomes.Clean.{Reads, Clean, clean_rules}
use agency_os.Execution.Service.Helpers.{Env, audit, timeline, count}
use agency_os.Execution.Service.Queueing.{
  WorkflowExecutionCreate, Fresh, queue, enqueue, new_execution, find_workflow, count_pending,
  violates, collides, is_given, organization_or_400, workflow_or_404,
}

-- what lets a request through: its organization, its active workflow, room under the cap, and no
-- broken constraint
pub record IsAdmissible (env : Env) (fresh : Fresh) (d : WorkflowExecutionCreate) (o : ℕ)
    (w : Workflow) (by : Option ℕ) (bypass : Bool) (db : Db) : Type 0 where
  pub automated : is_enabled db ≡ true
  pub organization : d.organization_id ≡ some o
  pub workflow : find_workflow o d.workflow_id db.workflows ≡ some w
  pub active : is_active w.status ≡ true
  pub room : (bypass || not (leb env.max_pending_per_org (count_pending o db.executions))) ≡ true
  pub intact : violates (new_execution d o by fresh) db ≡ false

enqueue_lem :
    (env : Env) (e : Execution) (by : Option ℕ) (db : Db)
    → violates e db ≡ false
    → let (r, db') = enqueue env e by db in
      (r ≡ ok e)
      × (db'.executions ≡ e ∷ db.executions)
      × ((entry : ActivityLog) × (db'.logs ≡ entry ∷ db.logs) × (entry.entity_id ≡ none))
unfolding enqueue audit timeline count
enqueue_lem env e by db fine = rw fine (refl, refl, (_, refl, refl))

count_pending-cons :
    (o : ℕ) (e : Execution) (es : List Execution)
    → e.organization_id ≡ o
    → e.status ≡ queued
    → count_pending o (e ∷ es) ≡ count_pending o es + 1
unfolding count_pending
count_pending-cons o e es h q = ground arith

module _ (env : Env) (fresh : Fresh) (d : WorkflowExecutionCreate) (o : ℕ) (w : Workflow)
    (by : Option ℕ) (bypass : Bool) (db : Db) where
  queue-enqueue :
      IsAdmissible env fresh d o w by bypass db
      → queue env fresh d by bypass db ≡ enqueue env (new_execution d o by fresh) by db
  unfolding queue block_if_paused
  queue-enqueue a = ground arith

  -- An admissible request puts one QUEUED row with no attempts in front of the table, counts it once
  -- among the pending executions of its organization, and writes one audit row, which does not name
  -- the new execution: its `entity_id` is None.
  pub queue_admits :
      IsAdmissible env fresh d o w by bypass db
      → let (r, db') = queue env fresh d by bypass db in
        (r ≡ ok (new_execution d o by fresh))
        × (db'.executions ≡ new_execution d o by fresh ∷ db.executions)
        × (count_pending o db'.executions ≡ count_pending o db.executions + 1)
        × ((entry : ActivityLog) × (db'.logs ≡ entry ∷ db.logs) × (entry.entity_id ≡ none))
  queue_admits a =
      let e = new_execution d o by fresh in
      let (r, rows, entry) = enqueue_lem env e by db a.intact in
      let counted =
        count_pending-cons o e db.executions (unfold new_execution in refl)
          (unfold new_execution in refl) in
      rw (queue-enqueue a) (r, rows, rw rows counted, entry)

module _ (env : Env) (fresh : Fresh) (d : WorkflowExecutionCreate) (o : ℕ) (w : Workflow)
    (by : Option ℕ) (db : Db) where
  -- Without the bypass, an admissible request leaves at most the cap of pending executions in its
  -- organization.
  pub queue_within_cap :
      IsAdmissible env fresh d o w by false db
      → count_pending o (queue env fresh d by false db).1.executions ≤ env.max_pending_per_org
  queue_within_cap a =
      let (r, rows, counted, entry) = queue_admits env fresh d o w by false db a in
      ground (arith, a.room)

-- the error of a refused insert
abbrev constraint_error : Option String → AppError
constraint_error key = record {
  code = if is_given key then "execution.duplicate_idempotency_key" else "execution.create_failed";
  status_code = 409;
}

taken→violates : (e : Execution) (db : Db) → collides e db.executions ≡ true → violates e db ≡ true
unfolding violates
taken→violates e db h = rw h

-- a request that only the database's constraints stop
queue_broken :
    (env : Env) (fresh : Fresh) (d : WorkflowExecutionCreate) (o : ℕ) (w : Workflow) (by : Option ℕ)
    (bypass : Bool) (db : Db)
    → is_enabled db ≡ true
    → d.organization_id ≡ some o
    → find_workflow o d.workflow_id db.workflows ≡ some w
    → is_active w.status ≡ true
    → (bypass || not (leb env.max_pending_per_org (count_pending o db.executions))) ≡ true
    → violates (new_execution d o by fresh) db ≡ true
    → queue env fresh d by bypass db ≡ (err (constraint_error d.idempotency_key), db)
unfolding queue enqueue new_execution block_if_paused
queue_broken env fresh d o w by bypass db enabled org found active room broken = ground arith

-- the key is taken in the table
collides_key :
    (e x : Execution) (k : String) (xs : List Execution)
    → x.organization_id ≡ e.organization_id
    → x.idempotency_key ≡ some k
    → e.idempotency_key ≡ some k
    → collides e (x ∷ xs) ≡ true
unfolding collides
collides_key e x k xs h a b = ground (arith, eq_refl k)

module _ (env : Env) (fresh fresh' : Fresh) (d d' : WorkflowExecutionCreate) (o : ℕ)
    (w w' : Workflow) (by by' : Option ℕ) (bypass bypass' : Bool) (db : Db) (k : String) where
  -- Once a request with an idempotency key is admitted, another request of the organization with
  -- that key, for an active workflow and with room under the cap, is refused with 409 and changes
  -- nothing; the code names the duplicate key unless the key is the empty text.
  pub queue_idempotent :
      IsAdmissible env fresh d o w by bypass db
      → d.idempotency_key ≡ some k
      → d'.idempotency_key ≡ some k
      → d'.organization_id ≡ some o
      → let db' = (queue env fresh d by bypass db).1 in
        is_enabled db' ≡ true
        → find_workflow o d'.workflow_id db'.workflows ≡ some w'
        → is_active w'.status ≡ true
        → (bypass' || not (leb env.max_pending_per_org (count_pending o db'.executions))) ≡ true
        → queue env fresh' d' by' bypass' db' ≡ (err (constraint_error (some k)), db')
  queue_idempotent a key key' org enabled found active room =
      let db' = (queue env fresh d by bypass db).1 in
      let rows = (queue_admits env fresh d o w by bypass db a).1 in
      let e = new_execution d' o by' fresh' in
      let taken : collides e db'.executions ≡ true = rw rows (
        collides_key e (new_execution d o by fresh) k db.executions (unfold new_execution in refl)
          (unfold new_execution in key) (unfold new_execution in key')) in
      let refused =
        queue_broken env fresh' d' o w' by' bypass' db' enabled org found active room
          (taken→violates e db' taken) in
      refused ∙ ap (λ key. (err (constraint_error key), db')) key'

pub organization_or_400-Reads : (o : Option ℕ) → Reads (organization_or_400 o)
organization_or_400-Reads none = search clean_rules
organization_or_400-Reads (some o) = search clean_rules

pub workflow_or_404-Reads : (w : Option Workflow) → Reads (workflow_or_404 w)
workflow_or_404-Reads none = search clean_rules
workflow_or_404-Reads (some w) = search clean_rules

pub block_if_paused-Reads : (code : String) → Reads (block_if_paused code)
unfolding block_if_paused
block_if_paused-Reads code = search clean_rules

enqueue-Clean : (env : Env) (e : Execution) (by : Option ℕ) → Clean (enqueue env e by)
unfolding enqueue audit timeline count
enqueue-Clean env e by = record {
  same = λ db x. elim (Bool-cases (violates e db)) [
    | inl broken ↦ rw broken (λ h. refl)
    | inr fine ↦ rw fine (λ h. cc)
  ];
}

queue-Clean :
    (env : Env) (fresh : Fresh) (d : WorkflowExecutionCreate) (by : Option ℕ) (bypass : Bool)
    → Clean (queue env fresh d by bypass)
unfolding queue
queue-Clean env fresh d by bypass =
    search
      (
        clean_rules, organization_or_400-Reads, workflow_or_404-Reads, block_if_paused-Reads,
        enqueue-Clean,
      )
      depth 16

-- A request that `queue` refuses, for whatever reason, has changed nothing: no row, no audit record,
-- no timeline event, no counter.
pub queue_refused :
    (env : Env) (fresh : Fresh) (d : WorkflowExecutionCreate) (by : Option ℕ) (bypass : Bool)
    (db : Db) (x : AppError)
    → (queue env fresh d by bypass db).0 ≡ err x
    → (queue env fresh d by bypass db).1 ≡ db
queue_refused env fresh d by bypass db x h = (queue-Clean env fresh d by bypass).same db x h
