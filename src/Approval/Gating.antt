-- ===== src/Approval/Gating.antt =====
-- What a gate does to the linked execution: `_process_gate` over `retry` and `cancel` of
-- services/workflow_execution_service.py, with no other session in between.
use agency_os.Prelude.{ℕ, ◌≡◌, refl, sym, ap, Bool, true, false, some, Bool-cases, inl, inr, arith}
use mathlib.Core.Path.{subst}
use agency_os.Automation.{is_enabled}
use agency_os.Db.Rows.{update_rows}
use agency_os.Db.Search.{any}
use agency_os.Db.Tables.{Execution, is_retryable}
use agency_os.Db.Session.{Result, ok, err}
use agency_os.Execution.Repository as Executions
use agency_os.Execution.Repository.{
  find_row, is_open, is_in_flight, requeue_values, cancel_pending_values, flag_values,
}
use agency_os.Execution.Service.Helpers as Helpers
use agency_os.Execution.Service.Helpers.{Env}
use agency_os.Execution.Service.Cancel.{cancel}
use agency_os.Execution.Outcomes.Requeued.{retry_lem, retry_paused}
use agency_os.Execution.Outcomes.Cancelling.{cancel_pending, cancel_running, cancel_flagged}
use agency_os.Approval.Requests.{
  ApprovalRequest, Approvals, is_approved, is_claimable, claim_values, claim_gate, update_where,
}
use agency_os.Approval.Deciding.{alone}
use agency_os.Approval.Gate.{
  retry_execution, cancel_execution, nothing, gate_action, perform, claim_and_perform,
  process_linked, process, process_gate, settled, is_live,
}

module _ (env : Env) (now : ℕ) (req : ApprovalRequest) (x : ℕ) (s : Approvals) where
  -- the request's row is stamped, and the execution is the given row
  abbrev pub IsApplied : Execution → Result Bool → Approvals → Type 0
  IsApplied e r s' =
      (r ≡ ok true)
      × (s'.requests ≡ update_rows (is_claimable req.id) (claim_values now) s.requests)
      × (find_row req.organization_id x s'.db.executions ≡ some e)

  -- the call raises, and nothing has changed
  abbrev pub IsBlocked : Result Bool → Approvals → Type 0
  IsBlocked r s' = (r ≡ err (record { code = "automation.paused"; status_code = 409 })) × (s' ≡ s)

  module _ (e : Execution) (found : find_row req.organization_id x s.db.executions ≡ some e)
      (claimable : any (is_claimable req.id) s.requests ≡ true) where
    apply_retry :
        is_retryable e.status ≡ true
        → is_enabled s.db ≡ true
        → let (r, s') = claim_and_perform env alone Helpers.alone now retry_execution req x s in
          IsApplied (requeue_values e) r s'
    unfolding claim_and_perform claim_gate update_where perform
    apply_retry h enabled =
        let by = req.decided_by_user_id in
        let (returned, stored, counted) =
          retry_lem env now req.organization_id x by s.db e found enabled h in
        rw (claimable, returned) (refl, refl, stored)

    apply_retry_paused :
        is_enabled s.db ≡ false
        → let (r, s') = claim_and_perform env alone Helpers.alone now retry_execution req x s in
          IsBlocked r s'
    unfolding claim_and_perform claim_gate update_where perform
    apply_retry_paused paused =
        let refused =
          retry_paused env now req.organization_id x req.decided_by_user_id s.db paused in
        rw (claimable, refused) (refl, refl)

    apply_cancel :
        (e' : Execution)
        → let (r, db) =
            cancel env Helpers.alone now req.organization_id x req.decided_by_user_id s.db in
          r ≡ ok e'
          → find_row req.organization_id x db.executions ≡ some e'
          → let (r', s') = claim_and_perform env alone Helpers.alone now cancel_execution req x s in
            IsApplied e' r' s'
    unfolding claim_and_perform claim_gate update_where perform
    apply_cancel e' returned stored = rw (claimable, returned) (refl, refl, stored)

    apply_nothing :
        let (r, s') = claim_and_perform env alone Helpers.alone now nothing req x s in
        IsApplied e r s'
    unfolding claim_and_perform claim_gate update_where perform
    apply_nothing = rw claimable (refl, refl, found)

  -- an approval, by whether the execution can be retried and automation is enabled
  abbrev pub Approves : Bool → Bool → Execution → Result Bool → Approvals → Type 0
  Approves false enabled e r s' = IsApplied e r s'
  Approves true false e r s' = IsBlocked r s'
  Approves true true e r s' = IsApplied (requeue_values e) r s'

  -- any other decision, by whether the execution waits unflagged, and runs unflagged
  abbrev pub Withholds : Bool → Bool → Execution → Result Bool → Approvals → Type 0
  Withholds true runs e r s' =
      IsApplied (cancel_pending_values now req.decided_by_user_id now e) r s'
  Withholds false true e r s' = IsApplied (flag_values now req.decided_by_user_id e) r s'
  Withholds false false e r s' = IsApplied e r s'

  abbrev pub Applies : Bool → Execution → Result Bool → Approvals → Type 0
  Applies true e r s' = Approves (is_retryable e.status) (is_enabled s.db) e r s'
  Applies false e r s' = Withholds (is_open e) (is_in_flight e) e r s'

  open_is_live : (e : Execution) → is_open e ≡ true → is_live e ≡ true
  open_is_live e h = ground arith

  running_is_live : (e : Execution) → is_in_flight e ≡ true → is_live e ≡ true
  running_is_live e h = ground arith

  module _ (e : Execution) (found : find_row req.organization_id x s.db.executions ≡ some e)
      (claimable : any (is_claimable req.id) s.requests ≡ true) where
    linked-Applies :
        (yea : Bool)
        → is_approved req.status ≡ yea
        → let (r, s') = process_linked env alone Helpers.alone now req x s in Applies yea e r s'
    unfolding process_linked gate_action Executions.get
    linked-Applies true yea = elim (Bool-cases (is_retryable e.status)) [
      | inr settled ↦ rw (found, yea, settled) (apply_nothing e found claimable)
      | inl again ↦ elim (Bool-cases (is_enabled s.db)) [
        | inl enabled ↦
            rw (found, yea, again, enabled) (apply_retry e found claimable again enabled)
        | inr paused ↦ rw (found, yea, again, paused) (apply_retry_paused e found claimable paused)
      ]
    ]
    linked-Applies false nay = elim (Bool-cases (is_open e)) [
      | inl waits ↦
          let (r, f, c) =
            cancel_pending env now req.organization_id x req.decided_by_user_id s.db e found
              waits in
          rw (found, nay, open_is_live e waits, waits) (apply_cancel e found claimable _ r f)
      | inr waits ↦ elim (Bool-cases (is_in_flight e)) [
        | inl runs ↦
            let (r, f, c) =
              cancel_running env now req.organization_id x req.decided_by_user_id s.db e found
                runs in
            rw (found, nay, running_is_live e runs, waits, runs)
              (apply_cancel e found claimable _ r f)
        | inr runs ↦ elim (Bool-cases (is_live e)) [
          | inl live ↦
              let same =
                cancel_flagged env now req.organization_id x req.decided_by_user_id s.db e found
                  live waits runs in
              rw (found, nay, live, waits, runs)
                (apply_cancel e found claimable e (ap (λ p. p.0) same) (rw same found))
          | inr over ↦ rw (found, nay, over, waits, runs) (apply_nothing e found claimable)
        ]
      ]
    ]

    -- A gate whose request can be claimed, applied to an execution that is there. After an approval a
    -- failed, cancelled or timed out execution is QUEUED again, unless automation is paused: then the
    -- call raises and nothing changes. After any other decision an execution that waits unflagged is
    -- CANCELLED and one that runs unflagged is flagged, in the name of whoever decided. Every other
    -- execution stays as it is. Except where the call raises, it returns True with the gate stamped.
    pub process_gate-Applies :
        req.workflow_execution_id ≡ some x
        → let (r, s') = process_gate env alone Helpers.alone now req s in
          Applies (is_approved req.status) e r s'
    unfolding process_gate
    process_gate-Applies linked =
        subst
          (λ link.
            let (r, s') = process env alone Helpers.alone now req link s in
            Applies (is_approved req.status) e r s')
          (sym linked) (linked-Applies (is_approved req.status) refl)
