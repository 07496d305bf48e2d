-- ===== src/Approval/Claims.antt =====
-- A gate is applied at most once, whichever worker sweeps it and whatever others do.
use agency_os.Prelude.{
  ℕ, ◌≡◌, refl, ap, ◌∙◌, Bool, false, Option, none, some, List, Bool-cases, inl, inr, arith,
}
use agency_os.Db.Session.{Result, ok, err}
use agency_os.Db.Store.{and_then, pure}
use agency_os.Db.Search.{any, any-update_rows_self, update_rows-none}
use agency_os.Execution.Repository as Executions
use agency_os.Execution.Service.Helpers.{Env, Others}
use agency_os.Execution.Service.Requeue.{retry}
use agency_os.Execution.Service.Cancel.{cancel}
use agency_os.Approval.Requests.{
  ApprovalRequest, Approvals, is_claimable, claim_values, claim_gate, update_where,
}
use agency_os.Approval.Deciding.{alone}
use agency_os.Approval.Gate.{
  GateAction, retry_execution, cancel_execution, nothing, perform, claim_and_perform,
  process_linked, process, process_gate, settled,
}

-- no row of the id can be claimed any more
abbrev pub IsTaken : ℕ → Approvals → Type 0
IsTaken i s = any (is_claimable i) s.requests ≡ false

-- what holds when a worker is through with a gate
abbrev Handles : ℕ → List ApprovalRequest → Result Bool → Approvals → Type 0
Handles i before (ok b) s = IsTaken i s
Handles i before (err e) s = s.requests ≡ before

finish_keeps : {A : Type 0} (r : Result A) (s : Approvals) → (and_then r (λ _. pure tt) s).1 ≡ s
finish_keeps (ok a) s = refl
finish_keeps (err e) s = refl

module _ (env : Env) (others : Approvals → Approvals) (executions : Others) (now : ℕ) where
  perform-requests :
      (action : GateAction) (req : ApprovalRequest) (x : ℕ) (s : Approvals)
      → (perform env others executions now action req x s).1.requests ≡ s.requests
  unfolding perform
  perform-requests retry_execution req x s =
      ap (λ (t : Approvals). t.requests)
        (finish_keeps (retry env executions now req.organization_id x req.decided_by_user_id s.db).0
          _)
  perform-requests cancel_execution req x s =
      ap (λ (t : Approvals). t.requests)
        (finish_keeps
          (cancel env executions now req.organization_id x req.decided_by_user_id s.db).0 _)
  perform-requests nothing req x s = refl

  settled-Handles :
      (i : ℕ) (before : List ApprovalRequest) (r : Result (Unit {0})) (s : Approvals)
      → IsTaken i s
      → Handles i before (settled before r s).0 (settled before r s).1
  settled-Handles i before (ok done) s h = h
  settled-Handles i before (err e) s h = refl

  claim_and_perform-Handles :
      (action : GateAction) (req : ApprovalRequest) (x : ℕ) (s : Approvals)
      → let (r, s') = claim_and_perform env others executions now action req x s in
        Handles req.id s.requests r s'
  unfolding claim_and_perform claim_gate update_where
  claim_and_perform-Handles action req x s =
      elim (Bool-cases (any (is_claimable req.id) s.requests)) [
        | inl hit ↦
            let s1 : Approvals = (claim_gate req.id now s).1 in
            let done = perform env others executions now action req x s1 in
            let kept : done.1.requests ≡ s1.requests = perform-requests action req x s1 in
            let spent : IsTaken req.id s1 =
              any-update_rows_self (is_claimable req.id) (claim_values now) (λ r. ground arith)
                s.requests in
            rw hit (
              settled-Handles req.id s.requests done.0 done.1
                (ap (any (is_claimable req.id)) kept ∙ spent))
        | inr miss ↦ rw miss (
            any-update_rows_self (is_claimable req.id) (claim_values now) (λ r. ground arith)
              s.requests)
      ]

  process-Handles :
      (req : ApprovalRequest) (link : Option ℕ) (s : Approvals)
      → let (r, s') = process env others executions now req link s in
        Handles req.id (others s).requests r s'
  unfolding process_linked claim_gate update_where Executions.get
  process-Handles req none s =
      any-update_rows_self (is_claimable req.id) (claim_values now) (λ r. ground arith)
        (others s).requests
  process-Handles req (some x) s = claim_and_perform-Handles _ req x (others s)

  taken-passes :
      (req : ApprovalRequest) (link : Option ℕ) (s : Approvals)
      → IsTaken req.id s
      → process env alone executions now req link s ≡ (ok false, s)
  unfolding process_linked claim_and_perform claim_gate update_where Executions.get
  taken-passes req none s h =
      let same = update_rows-none (is_claimable req.id) (claim_values now) s.requests h in
      rw (h, same) refl
  taken-passes req (some x) s h =
      let same = update_rows-none (is_claimable req.id) (claim_values now) s.requests h in
      rw (h, same) refl

module _ (env env' : Env) (others : Approvals → Approvals) (executions executions' : Others)
    (now now' : ℕ) (req : ApprovalRequest) (s : Approvals) where
  -- what a further pass over the same gate does, by the result of the first
  abbrev pub Once : Result Bool → Approvals → Type 0
  Once (ok b) s' = process_gate env' alone executions' now' req s' ≡ (ok false, s')
  Once (err e) s' = s'.requests ≡ (others s).requests

  once : (r : Result Bool) (s' : Approvals) → Handles req.id (others s).requests r s' → Once r s'
  unfolding process_gate
  once (ok b) s' h = taken-passes env' alone executions' now' req req.workflow_execution_id s' h
  once (err e) s' h = h

  -- A gate that a worker has gone through without an exception, whether it won or lost the claim, is
  -- passed over by every later worker with the same request in hand: the pass returns False and
  -- changes nothing. After an exception no request is changed by the worker, so the gate is open.
  pub process_gate-Once : let (r, s') = process_gate env others executions now req s in Once r s'
  unfolding process_gate
  process_gate-Once =
      once _ _ (process-Handles env others executions now req req.workflow_execution_id s)
