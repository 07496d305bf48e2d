-- ===== src/Approval/Requests.antt =====
-- backend/app/repositories/approval_request.py over models/approval_request.py and
-- models/approval_log.py. Times are counted in seconds.
use agency_os.Prelude.{
  ℕ, String, Bool, true, false, ◌&&◌, not, Option, none, some, List, ◌==◌, ltb, is_none, is_some,
  select, take, length, if◌then◌else◌,
}
use agency_os.Db.Tables.{Db}
use agency_os.Db.Rows.{first_row, update_rows, order_by}
use agency_os.Db.Search.{any}
use agency_os.Db.Store.{Action, ◌>>=◌, pure, gets, or_raise}

pub data ApprovalRequestStatus : Type 0 where
  pending approved denied expired cancelled : ApprovalRequestStatus

abbrev pub is_pending : ApprovalRequestStatus → Bool
is_pending pending = true
is_pending _ = false

abbrev pub is_approved : ApprovalRequestStatus → Bool
is_approved approved = true
is_approved _ = false

abbrev status_number : ApprovalRequestStatus → ℕ
status_number pending = 0
status_number approved = 1
status_number denied = 2
status_number expired = 3
status_number cancelled = 4

abbrev pub same_status : ApprovalRequestStatus → ApprovalRequestStatus → Bool
same_status a b = status_number a == status_number b

pub record ApprovalRequest : Type 0 where
  pub id : ℕ
  pub organization_id : ℕ
  pub workflow_id : Option ℕ
  pub workflow_execution_id : Option ℕ
  pub requested_by_user_id : Option ℕ
  pub approver_user_id : Option ℕ
  pub title : String
  pub details : Option String
  pub status : ApprovalRequestStatus
  pub created_at : ℕ
  pub expires_at : ℕ
  pub decided_by_user_id : Option ℕ
  pub decided_at : Option ℕ
  pub decision_note : Option String
  pub gate_handled_at : Option ℕ

pub data ApprovalLogAction : Type 0 where
  requested notified approved denied expired cancelled : ApprovalLogAction

pub record ApprovalLog : Type 0 where
  pub organization_id : ℕ
  pub approval_request_id : ℕ
  pub actor_user_id : Option ℕ
  pub action : ApprovalLogAction
  pub note : Option String

-- the two tables of approvals, beside the tables of the automation services
pub record Approvals : Type 0 where
  pub requests : List ApprovalRequest
  pub logs : List ApprovalLog
  pub db : Db

abbrev pub M : Type 0 → Type 0
M A = Action Approvals A

abbrev pub is_row : ℕ → ℕ → ApprovalRequest → Bool
is_row organization_id request_id r = r.id == request_id && r.organization_id == organization_id

unfoldable pub find_row : ℕ → ℕ → List ApprovalRequest → Option ApprovalRequest
find_row organization_id request_id requests =
    first_row (is_row organization_id request_id) requests

unfoldable pub get_or_404 : ℕ → ℕ → M ApprovalRequest
unfolding find_row
get_or_404 organization_id request_id = do
  found ← gets (λ s. find_row organization_id request_id s.requests)
  or_raise found "approval_requests.not_found" 404

-- `UPDATE approval_requests SET values WHERE guard`, and whether it matched a row
unfoldable pub update_where :
    (ApprovalRequest → Bool) → (ApprovalRequest → ApprovalRequest) → M Bool
update_where guard values s =
    pure (any guard s.requests) (record s { requests = update_rows guard values s.requests })

-- `ORDER BY ... LIMIT ...`
abbrev page :
    (ApprovalRequest → ApprovalRequest → Bool) → ℕ → List ApprovalRequest → List ApprovalRequest
page before limit requests = take limit (order_by before requests)

abbrev at_most : ℕ → ℕ → ℕ
at_most bound n = if ltb bound n then bound else n

unfoldable pub list_pending_expired : ℕ → ℕ → ℕ → M (List ApprovalRequest)
list_pending_expired organization_id now limit = gets λ s.
    page (λ a b. not (ltb b.expires_at a.expires_at)) (at_most 500 limit)
      (select
        (λ r. r.organization_id == organization_id && is_pending r.status && ltb r.expires_at now)
        s.requests)

unfoldable pub count_pending : ℕ → M ℕ
count_pending organization_id = gets λ s.
    length (select (λ r. r.organization_id == organization_id && is_pending r.status) s.requests)

abbrev pub is_open : ℕ → ℕ → ApprovalRequest → Bool
is_open organization_id request_id r =
    r.organization_id == organization_id && r.id == request_id && is_pending r.status

abbrev pub expire_values : ℕ → ApprovalRequest → ApprovalRequest
expire_values now r = record r { status = expired; decided_at = some now }

unfoldable pub mark_expired : ℕ → ℕ → ℕ → M Bool
unfolding update_where
mark_expired organization_id request_id now =
    update_where (is_open organization_id request_id) (expire_values now)

abbrev same_id : Option ℕ → ℕ → Bool
same_id none i = false
same_id (some j) i = j == i

unfoldable pub exists_pending_gate : ℕ → ℕ → M Bool
exists_pending_gate organization_id workflow_execution_id = gets λ s.
    any
      (λ r.
        r.organization_id == organization_id
        && same_id r.workflow_execution_id workflow_execution_id
        && is_pending r.status)
      s.requests

-- terminal, linked to an execution, and not handled
abbrev pub is_unhandled : ApprovalRequest → Bool
is_unhandled r =
    is_none r.gate_handled_at && is_some r.workflow_execution_id && not (is_pending r.status)

-- rows with no `decided_at` come last, as PostgreSQL sorts them
abbrev pub decided_before : Option ℕ → Option ℕ → Bool
decided_before none none = true
decided_before none (some b) = false
decided_before (some a) none = true
decided_before (some a) (some b) = not (ltb b a)

unfoldable pub unhandled_gates : ℕ → List ApprovalRequest → List ApprovalRequest
unhandled_gates limit requests =
    page (λ a b. decided_before a.decided_at b.decided_at) (at_most 500 limit)
      (select is_unhandled requests)

unfoldable pub list_unhandled_gates : ℕ → M (List ApprovalRequest)
unfolding unhandled_gates
list_unhandled_gates limit = gets λ s. unhandled_gates limit s.requests

abbrev pub is_claimable : ℕ → ApprovalRequest → Bool
is_claimable request_id r = r.id == request_id && is_none r.gate_handled_at

abbrev pub claim_values : ℕ → ApprovalRequest → ApprovalRequest
claim_values handled_at r = record r { gate_handled_at = some handled_at }

unfoldable pub claim_gate : ℕ → ℕ → M Bool
unfolding update_where
claim_gate request_id handled_at = update_where (is_claimable request_id) (claim_values handled_at)
