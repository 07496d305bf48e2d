-- ===== src/Execution/Guarantee.antt =====
-- Contracts on what a service method does to the executions table, and the rules by which a `do`
-- block keeps one. A method is proved against every contract that its guarded UPDATEs keep.
use agency_os.Prelude.{ℕ, String, Bool, true, false, Option, none, some, List, if◌then◌else◌}
use agency_os.Db.Tables.{Db, Execution, Fields}
use agency_os.Db.Session.{M, Result, ok, err, ◌>>=◌, and_then, pure, raise}
use agency_os.Execution.Repository.{
  mark_started, mark_succeeded, mark_failed, mark_failed_if_queued, mark_cancelled_after_run,
  mark_cancelled_if_pending, mark_cancel_requested, mark_timed_out, mark_requeued,
  mark_requeued_due,
}
use agency_os.Execution.Service.Helpers.{Env}
use agency_os.Execution.Service.Queueing.{WorkflowExecutionCreate, Fresh, new_execution, enqueue}
use agency_os.Execution.Service.Running.{failure_status}

-- A contract on what a session does to the table: a relation between the rows before and after
-- that holds of doing nothing and composes.
pub record Contract : Type 1 where
  pub Rel : List Execution → List Execution → Type 0
  pub rel_refl : (xs : List Execution) → Rel xs xs
  pub rel_trans : (xs ys zs : List Execution) → Rel xs ys → Rel ys zs → Rel xs zs

-- `m` keeps the contract, whether it returns or raises.
pub record Guarantees (c : Contract) {A : Type 0} (m : M A) : Type 0 where
  pub at : (db : Db) → c.Rel db.executions (m db).1.executions

module _ (c : Contract) {A : Type 0} where
  pub Guarantees-pure : (a : A) → Guarantees c (pure a)
  Guarantees-pure a = record { at = λ db. c.rel_refl db.executions }

  pub Guarantees-raise : (code : String) (status : ℕ) → Guarantees c (raise {A = A} code status)
  Guarantees-raise code status = record { at = λ db. c.rel_refl db.executions }

  pub Guarantees-if :
      (b : Bool) (m n : M A) → Guarantees c m → Guarantees c n → Guarantees c (if b then m else n)
  Guarantees-if true m n gm gn = gm
  Guarantees-if false m n gm gn = gn

module _ (c : Contract) {A B : Type 0} where
  Guarantees-and_then :
      (r : Result A) (f : A → M B)
      → ((a : A) → Guarantees c (f a))
      → (db : Db) → c.Rel db.executions (and_then r f db).1.executions
  Guarantees-and_then (ok a) f g db = (g a).at db
  Guarantees-and_then (err e) f g db = c.rel_refl db.executions

  pub Guarantees-bind :
      (m : M A) (f : A → M B)
      → Guarantees c m
      → ((a : A) → Guarantees c (f a))
      → Guarantees c (m >>= f)
  Guarantees-bind m f gm gf = record {
    at = λ db.
        let (r, db') = m db in
        c.rel_trans db.executions db'.executions (and_then r f db').1.executions (gm.at db)
          (Guarantees-and_then r f gf db');
  }

pub ruleset guarantee_rules = (Guarantees-pure, Guarantees-raise, Guarantees-if, Guarantees-bind)

-- The guarded UPDATEs of the repository and the insert of `queue` keep the contract, at the
-- arguments with which the service calls them.
pub record KeptByUpdates (c : Contract) : Type 0 where
  pub started : (o i now : ℕ) → Guarantees c (mark_started o i now)
  pub succeeded : (o i : ℕ) (output : Fields) (t : ℕ) → Guarantees c (mark_succeeded o i output t)
  pub failed :
      (o i : ℕ) (error : Fields) (retry : Bool) (due t : ℕ)
      → Guarantees c (
          mark_failed o i error
            (failure_status retry)
            (if retry then some due else none)
            (if retry then none else some t))
  pub failed_if_queued :
      (o i : ℕ) (error : Fields) (t : ℕ) → Guarantees c (mark_failed_if_queued o i error t)
  pub cancelled_after_run : (o i t : ℕ) → Guarantees c (mark_cancelled_after_run o i t)
  pub cancelled_if_pending :
      (o i t : ℕ) (by : Option ℕ) (f : ℕ) → Guarantees c (mark_cancelled_if_pending o i t by f)
  pub cancel_requested : (o i t : ℕ) (by : Option ℕ) → Guarantees c (mark_cancel_requested o i t by)
  pub timed_out : (o i : ℕ) (error : Fields) (t : ℕ) → Guarantees c (mark_timed_out o i error t)
  pub requeued : (o i : ℕ) → Guarantees c (mark_requeued o i)
  pub requeued_due : (o i before : ℕ) → Guarantees c (mark_requeued_due o i before)
  pub enqueued :
      (env : Env) (d : WorkflowExecutionCreate) (o : ℕ) (by : Option ℕ) (fresh : Fresh)
      → Guarantees c (enqueue env (new_execution d o by fresh) by)
