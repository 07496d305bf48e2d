-- ===== src/Approval/Gate.antt =====
-- backend/app/services/approval_gate_service.py: `_gate_action`, `_process_gate` and `sweep`. The
-- operations on the linked execution are those of `Execution.Service`; `others` is what other
-- sessions commit between the listing of a gate and its claim.
use agency_os.Prelude.{
  ℕ, ◌+◌, Bool, true, false, ◌||◌, Option, none, some, List, [], ◌∷◌, if◌then◌else◌,
}
use agency_os.Db.Tables.{Execution, is_retryable, is_pending as is_waiting, is_running}
use agency_os.Db.Session as Session
use agency_os.Db.Session.{Result, ok, err}
use agency_os.Db.Store.{◌>>=◌, ◌>>◌, pure, gets, modify}
use agency_os.Execution.Repository as Executions
use agency_os.Execution.Service.Helpers.{Env, Others}
use agency_os.Execution.Service.Requeue.{retry}
use agency_os.Execution.Service.Cancel.{cancel}
use agency_os.Approval.Requests.{
  ApprovalRequestStatus, ApprovalRequest, Approvals, M, is_approved, claim_gate,
  list_unhandled_gates,
}

pub data GateAction : Type 0 where
  retry_execution cancel_execution nothing : GateAction

-- QUEUED, RUNNING or RETRYING
abbrev pub is_live : Execution → Bool
is_live e = is_waiting e.status || is_running e.status

abbrev pub action_for : Bool → Execution → GateAction
action_for true e = if is_retryable e.status then retry_execution else nothing
action_for false e = if is_live e then cancel_execution else nothing

unfoldable pub gate_action : ApprovalRequestStatus → Option Execution → GateAction
gate_action status none = nothing
gate_action status (some e) = action_for (is_approved status) e

-- a method of the execution service, in the session of the gate service
abbrev pub on_db : {A : Type 0} → Session.M A → M A
on_db m s = let (r, db) = m s.db in (r, record s { db = db })

-- after an exception the rollback takes the stamp back
abbrev pub settled : List ApprovalRequest → Result (Unit {0}) → Approvals → Result Bool × Approvals
settled before (ok done) s = (ok true, s)
settled before (err e) s = (err e, record s { requests = before })

abbrev pub or_unclaimed : List ApprovalRequest → M (Unit {0}) → M Bool
or_unclaimed before m s = let (r, s') = m s in settled before r s'

module _ (env : Env) (others : Approvals → Approvals) (executions : Others) (now : ℕ) where
  unfoldable pub perform : GateAction → ApprovalRequest → ℕ → M (Unit {0})
  perform retry_execution req exec_id = do
    updated ← on_db (retry env executions now req.organization_id exec_id req.decided_by_user_id)
    pure tt
  perform cancel_execution req exec_id = do
    updated ← on_db (cancel env executions now req.organization_id exec_id req.decided_by_user_id)
    pure tt
  perform nothing req exec_id = pure tt

  -- the stamp, and with it the operation
  unfoldable pub claim_and_perform : GateAction → ApprovalRequest → ℕ → M Bool
  unfolding perform
  claim_and_perform action req exec_id = do
    before ← gets (λ s. s.requests)
    claimed ← claim_gate req.id now
    if claimed then or_unclaimed before (perform action req exec_id) else pure false

  unfoldable pub process_linked : ApprovalRequest → ℕ → M Bool
  unfolding claim_and_perform gate_action
  process_linked req exec_id = do
    execution ← on_db (Executions.get req.organization_id exec_id)
    modify others
    claim_and_perform (gate_action req.status execution) req exec_id

  abbrev pub process : ApprovalRequest → Option ℕ → M Bool
  unfolding process_linked
  process req none = do modify others; claim_gate req.id now
  process req (some exec_id) = process_linked req exec_id

  unfoldable pub process_gate : ApprovalRequest → M Bool
  unfolding process
  process_gate req = process req req.workflow_execution_id

  abbrev count_claimed : Bool → ℕ → ℕ
  count_claimed claimed handled = if claimed then handled + 1 else handled

  unfoldable pub process_all : List ApprovalRequest → M ℕ
  unfolding process_gate
  process_all [] = pure 0
  process_all (req ∷ rest) = do
    claimed ← process_gate req
    handled ← process_all rest
    pure (count_claimed claimed handled)

  unfoldable pub sweep : ℕ → M ℕ
  unfolding process_all
  sweep limit = do requests ← list_unhandled_gates limit; process_all requests
