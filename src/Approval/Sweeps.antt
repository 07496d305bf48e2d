-- ===== src/Approval/Sweeps.antt =====
-- `sweep` of services/approval_gate_service.py, which stops at the first gate that raises.
use agency_os.Prelude.{ℕ, ◌≡◌, refl, ap, ◌∙◌, true, false, some, List, [], ◌∷◌}
use agency_os.Automation.{is_enabled}
use agency_os.Db.Search.{any}
use agency_os.Db.Tables.{Execution, is_retryable}
use agency_os.Db.Session.{err}
use agency_os.Execution.Repository.{find_row}
use agency_os.Execution.Service.Helpers as Helpers
use agency_os.Execution.Service.Helpers.{Env}
use agency_os.Approval.Requests.{
  ApprovalRequest, Approvals, is_approved, is_claimable, list_unhandled_gates, unhandled_gates,
}
use agency_os.Approval.Deciding.{alone, refusal}
use agency_os.Approval.Gate.{process_all, sweep}
use agency_os.Approval.Gating.{process_gate-Applies}

-- `n` sweeps, one after the other, each at its own time
pub sweeps : Env → ℕ → List ℕ → Approvals → Approvals
sweeps env limit [] s = s
sweeps env limit (now ∷ later) s =
    sweeps env limit later (sweep env alone Helpers.alone now limit s).1

module _ (env : Env) (s : Approvals) (req : ApprovalRequest) (rest : List ApprovalRequest)
    (limit x : ℕ) (e : Execution) (first : unhandled_gates limit s.requests ≡ req ∷ rest)
    (linked : req.workflow_execution_id ≡ some x)
    (found : find_row req.organization_id x s.db.executions ≡ some e)
    (claimable : any (is_claimable req.id) s.requests ≡ true)
    (approves : is_approved req.status ≡ true) (stopped : is_retryable e.status ≡ true)
    (paused : is_enabled s.db ≡ false) where
  sweep_blocked :
      (now : ℕ) → sweep env alone Helpers.alone now limit s ≡ (err (refusal "automation.paused"), s)
  unfolding sweep list_unhandled_gates process_all
  sweep_blocked now =
      let applied = process_gate-Applies env now req x s e found claimable linked in
      let blocked = rw (approves, stopped, paused) at applied in
      rw (first, blocked.0, blocked.1) refl

  -- While automation is paused, an approval at the head of the unhandled gates, for an execution that
  -- is to be retried, makes every sweep raise: after any number of sweeps nothing has changed, so no
  -- gate behind it is applied, not even the ones that cancel.
  pub paused_gate_blocks :
      (times : List ℕ)
      → (sweeps env limit times s ≡ s)
        × ((now : ℕ)
            → (sweep env alone Helpers.alone now limit s).0 ≡ err (refusal "automation.paused"))
  unfolding sweeps
  paused_gate_blocks [] = (refl, λ now. ap (λ p. p.0) (sweep_blocked now))
  paused_gate_blocks (now ∷ later) =
      let stays = ap (λ p. p.1) (sweep_blocked now) in
      (
        ap (sweeps env limit later) stays ∙ (paused_gate_blocks later).0,
        (paused_gate_blocks later).1,
      )
