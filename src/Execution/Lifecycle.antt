-- ===== src/Execution/Lifecycle.antt =====
-- The life of one execution as the state machine that the service promises: what no sequence of
-- service calls, worker sweeps and cancels may leave.
use agency_os.Prelude.{◌+◌, ◌≤◌, ◌≡◌, refl, ◌∙◌, ◌≢◌, ◌&&◌, arith, if◌then◌else◌}
use agency_os.Db.Tables.{
  Execution, ExecutionStatus, queued, running, succeeded, failed, retrying, cancelled, timed_out,
  is_queued, is_running,
}

pub data Edge : ExecutionStatus → ExecutionStatus → Type 0 where
  claim : Edge queued running
  succeed : Edge running succeeded
  give_up : Edge running failed
  reschedule : Edge running retrying
  time_out : Edge running timed_out
  flag : Edge running running
  abort : Edge running cancelled
  abandon : Edge queued failed
  cancel_queued : Edge queued cancelled
  cancel_retrying : Edge retrying cancelled
  requeue_due : Edge retrying queued
  retry_failed : Edge failed queued
  retry_cancelled : Edge cancelled queued
  retry_timed_out : Edge timed_out queued

pub ruleset edges = (
  claim, succeed, give_up, reschedule, time_out, flag, abort, abandon, cancel_queued,
  cancel_retrying, requeue_due, retry_failed, retry_cancelled, retry_timed_out,
)

-- what the insert fixed for good
pub record SameRequest (a b : Execution) : Type 0 where
  pub id : a.id ≡ b.id
  pub organization_id : a.organization_id ≡ b.organization_id
  pub workflow_id : a.workflow_id ≡ b.workflow_id
  pub trigger_id : a.trigger_id ≡ b.trigger_id
  pub input : a.input ≡ b.input
  pub created_at : a.created_at ≡ b.created_at
  pub max_attempts : a.max_attempts ≡ b.max_attempts
  pub retry_delay_seconds : a.retry_delay_seconds ≡ b.retry_delay_seconds
  pub retry_backoff : a.retry_backoff ≡ b.retry_backoff
  pub requested_by_user_id : a.requested_by_user_id ≡ b.requested_by_user_id
  pub trace_id : a.trace_id ≡ b.trace_id
  pub idempotency_key : a.idempotency_key ≡ b.idempotency_key

-- One transition: along an edge, with the request kept, and an attempt counted by a claim alone.
pub record RowStep (a b : Execution) : Type 0 where
  pub edge : Edge a.status b.status
  pub same : SameRequest a b
  pub attempts :
      b.attempts
      ≡ (if is_queued a.status && is_running b.status then a.attempts + 1 else a.attempts)

pub data Reaches (a : Execution) : Execution → Type 0 where
  here : Reaches a a
  next : {b c : Execution} → Reaches a b → RowStep b c → Reaches a c

pub Reaches-trans : {a b c : Execution} → Reaches a b → Reaches b c → Reaches a c
Reaches-trans r here = r
Reaches-trans r (next s t) = next (Reaches-trans r s) t

pub one_step : {a b : Execution} → RowStep a b → Reaches a b
one_step s = next here s

SameRequest-trans : {a b c : Execution} → SameRequest a b → SameRequest b c → SameRequest a c
SameRequest-trans s t = record {
  id = s.id ∙ t.id;
  organization_id = s.organization_id ∙ t.organization_id;
  workflow_id = s.workflow_id ∙ t.workflow_id;
  trigger_id = s.trigger_id ∙ t.trigger_id;
  input = s.input ∙ t.input;
  created_at = s.created_at ∙ t.created_at;
  max_attempts = s.max_attempts ∙ t.max_attempts;
  retry_delay_seconds = s.retry_delay_seconds ∙ t.retry_delay_seconds;
  retry_backoff = s.retry_backoff ∙ t.retry_backoff;
  requested_by_user_id = s.requested_by_user_id ∙ t.requested_by_user_id;
  trace_id = s.trace_id ∙ t.trace_id;
  idempotency_key = s.idempotency_key ∙ t.idempotency_key;
}

pub Reaches-SameRequest : {a b : Execution} → Reaches a b → SameRequest a b
Reaches-SameRequest {a} here = record {
  id = refl;
  organization_id = refl;
  workflow_id = refl;
  trigger_id = refl;
  input = refl;
  created_at = refl;
  max_attempts = refl;
  retry_delay_seconds = refl;
  retry_backoff = refl;
  requested_by_user_id = refl;
  trace_id = refl;
  idempotency_key = refl;
}
Reaches-SameRequest (next r s) = SameRequest-trans (Reaches-SameRequest r) s.same

-- attempts are only ever added
pub Reaches-attempts : {a b : Execution} → Reaches a b → a.attempts ≤ b.attempts
Reaches-attempts here = omega arith
Reaches-attempts (next r s) = let below = Reaches-attempts r in ground (arith, s.attempts)

Edge-ne-succeeded : {s t : ExecutionStatus} → Edge s t → s ≢ succeeded
Edge-ne-succeeded claim e = cc
Edge-ne-succeeded _ e = cc

-- SUCCEEDED is final.
pub Reaches-succeeded : {a b : Execution} → Reaches a b → a.status ≡ succeeded → b ≡ a
Reaches-succeeded here h = refl
Reaches-succeeded {a} (next {b = b} r s) h =
    let same : b ≡ a = Reaches-succeeded r h in absurd (Edge-ne-succeeded s.edge (cc))
