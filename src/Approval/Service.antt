-- ===== src/Approval/Service.antt =====
-- backend/app/services/approval_service.py: `create_request` and `decide`. What other sessions commit
-- between the read of the request and the UPDATE of its row is `others`.
use agency_os.Prelude.{
  ℕ, ◌+◌, ◌*◌, String, Bool, true, false, ◌==◌, not, Option, none, some, ◌∷◌, ltb, if◌then◌else◌,
}
use package.text.Mathlib.Text.{◌==◌ as str_eq}
use agency_os.Db.Store.{◌>>=◌, ◌>>◌, pure, raise, modify, refuse_if}
use agency_os.Approval.Requests.{
  ApprovalRequestStatus, ApprovalRequest, ApprovalLogAction, Approvals, M, is_pending, get_or_404,
  update_where, mark_expired,
}

-- what the insert of a row draws: the new id, the time, and whether the constraints of the table
-- (a title that is not blank, the foreign keys) admit the row
pub record Fresh : Type 0 where
  pub id : ℕ
  pub now : ℕ
  pub admits : ApprovalRequest → Bool

-- the server's default, `now() + interval '24 hours'`
abbrev or_default : ℕ → Option ℕ → ℕ
or_default now none = now + 24 * 3600
or_default now (some t) = t

unfoldable pub new_request :
    Fresh
    → ℕ
    → ℕ
    → Option ℕ
    → Option ℕ
    → Option ℕ
    → String
    → Option String
    → Option ℕ
    → ApprovalRequest
new_request fresh organization_id requested_by workflow_id workflow_execution_id approver title
      details expires_at =
    record {
      id = fresh.id;
      organization_id = organization_id;
      workflow_id = workflow_id;
      workflow_execution_id = workflow_execution_id;
      requested_by_user_id = some requested_by;
      approver_user_id = approver;
      title = title;
      details = details;
      status = ApprovalRequestStatus.pending;
      created_at = fresh.now;
      expires_at = or_default fresh.now expires_at;
      decided_by_user_id = none;
      decided_at = none;
      decision_note = none;
      gate_handled_at = none;
    }

unfoldable pub add_log : ℕ → ℕ → ℕ → ApprovalLogAction → Option String → M (Unit {0})
add_log organization_id request_id actor action note = modify λ s. record s {
  logs =
      record {
        organization_id = organization_id;
        approval_request_id = request_id;
        actor_user_id = some actor;
        action = action;
        note = note;
      }
      ∷ s.logs;
}

-- The refused flush is an `IntegrityError`, which no handler of the service catches.
unfoldable pub create_request :
    Fresh
    → ℕ
    → ℕ
    → Option ℕ
    → Option ℕ
    → Option ℕ
    → String
    → Option String
    → Option ℕ
    → M ApprovalRequest
unfolding new_request add_log
create_request fresh organization_id requested_by workflow_id workflow_execution_id approver title
      details expires_at =
    do
      let request =
          new_request fresh organization_id requested_by workflow_id workflow_execution_id approver
            title details expires_at
      refuse_if (not (fresh.admits request)) "IntegrityError" 500
      modify (λ s. record s { requests = request ∷ s.requests })
      add_log organization_id request.id requested_by ApprovalLogAction.requested none
      pure request

abbrev pub decision : Bool → ApprovalRequestStatus
decision approve = if approve then ApprovalRequestStatus.approved else ApprovalRequestStatus.denied

abbrev pub decision_action : Bool → ApprovalLogAction
decision_action approve = if approve then ApprovalLogAction.approved else ApprovalLogAction.denied

-- the four attributes that `decide` assigns
abbrev pub decision_values : Bool → ℕ → ℕ → Option String → ApprovalRequest → ApprovalRequest
decision_values approve actor decided_at note r = record r {
  status = decision approve;
  decided_by_user_id = some actor;
  decided_at = some decided_at;
  decision_note = note;
}

abbrev pub same_id : Option ℕ → Option ℕ → Bool
same_id none none = true
same_id none (some b) = false
same_id (some a) none = false
same_id (some a) (some b) = a == b

abbrev pub same_note : Option String → Option String → Bool
same_note none none = true
same_note none (some b) = false
same_note (some a) none = false
same_note (some a) (some b) = str_eq a b

-- What the flush writes over the stored row: an attribute whose new value is the one that was read is
-- no change, and its column is left out of the UPDATE. The status was read PENDING, and is a change.
abbrev pub written_values :
    Bool → ℕ → ℕ → Option String → ApprovalRequest → ApprovalRequest → ApprovalRequest
written_values approve actor decided_at note read r = record r {
  status = decision approve;
  decided_by_user_id =
      if same_id read.decided_by_user_id (some actor) then r.decided_by_user_id else some actor;
  decided_at = if same_id read.decided_at (some decided_at) then r.decided_at else some decided_at;
  decision_note = if same_note read.decision_note note then r.decision_note else note;
}

abbrev pub has_id : ℕ → ApprovalRequest → Bool
has_id i r = r.id == i

abbrev pub not_pending : String
not_pending = "approval.not_pending"

abbrev pub has_expired : String
has_expired = "approval.expired"

module _ (others : Approvals → Approvals) (now decided_at organization_id actor request_id : ℕ)
    (approve : Bool) (note : Option String) where
  -- a request past its time is stored EXPIRED before the refusal
  unfoldable pub expire : ApprovalRequest → M ApprovalRequest
  expire request = do
    modify others
    marked ← mark_expired organization_id request.id now
    raise has_expired 409

  -- The flush of the commit writes the changed attributes `WHERE id = ..`, with no other guard.
  unfoldable pub record_decision : ApprovalRequest → M ApprovalRequest
  unfolding update_where add_log
  record_decision request = do
    modify others
    written ←
        update_where (has_id request.id) (written_values approve actor decided_at note request)
    add_log organization_id request.id actor (decision_action approve) note
    pure (decision_values approve actor decided_at note request)

  unfoldable pub decide_pending : ApprovalRequest → M ApprovalRequest
  unfolding expire record_decision
  decide_pending request =
      if ltb request.expires_at now then expire request else record_decision request

  unfoldable pub decide : M ApprovalRequest
  unfolding decide_pending
  decide = do
    request ← get_or_404 organization_id request_id
    refuse_if (not (is_pending request.status)) not_pending 409
    decide_pending request
