-- ===== src/Agents/Transitions.antt =====
-- agents/state_machine.py against repositories/agent_run.py: the UPDATEs of any number of workers and
-- sweeps, in any order, and the transitions that the state machine allows.
use agency_os.Prelude.{
  ℕ, ◌≡◌, refl, ◌∙◌, Bool, true, ◌&&◌, not, List, [], ◌∷◌, map, Bool-cases, inl, inr, arith,
}
use agency_os.Agents.StateMachine.{
  AgentRunStatus, queued, running, succeeded, failed, cancelled, same_status, is_terminal,
  can_transition, is_cancellable,
}
use agency_os.Agents.Runs.{
  AgentRun, Update, start, succeed, fail, fail_queued, cancel_after_run, cancel_pending,
  flag_cancel, Statement, update_of, execute, update_row, mark_started, mark_succeeded, mark_failed,
  mark_failed_if_queued, mark_cancelled_after_run, mark_cancelled_if_pending, mark_cancel_requested,
  is_startable, is_in_flight, keyed, start_values, succeed_values, fail_values, stop_values,
  withdraw_values, flag_values, is_queued, is_startable, is_in_flight, is_flagged,
}

-- a sequence of legal transitions
pub data Chain : AgentRunStatus → AgentRunStatus → Type 0 where
  stay : {a : AgentRunStatus} → Chain a a
  step : {a b c : AgentRunStatus} → can_transition a b ≡ true → Chain b c → Chain a c

Chain-trans : {a b c : AgentRunStatus} → Chain a b → Chain b c → Chain a c
Chain-trans stay d = d
Chain-trans (step e c) d = step e (Chain-trans c d)

-- What is promised of a row: its status moves by legal transitions, a terminal row keeps every
-- column, and the request stays.
pub record Evolves (r r' : AgentRun) : Type 0 where
  pub chain : Chain r.status r'.status
  pub final : is_terminal r.status ≡ true → r' ≡ r
  pub same_id : r'.id ≡ r.id
  pub same_organization : r'.organization_id ≡ r.organization_id
  pub same_input : r'.input ≡ r.input

Evolves-refl : (r : AgentRun) → Evolves r r
Evolves-refl r = record {
  chain = stay;
  final = λ _. refl;
  same_id = refl;
  same_organization = refl;
  same_input = refl;
}

-- a terminal status is kept by a chain
Chain-terminal : {a b : AgentRunStatus} → Chain a b → is_terminal a ≡ true → b ≡ a
Chain-terminal stay t = refl
Chain-terminal {a = a} (step {b = b} e c) t = absurd (ground arith)

Evolves-trans : {a b c : AgentRun} → Evolves a b → Evolves b c → Evolves a c
Evolves-trans {a} {b} {c} s t = record {
  chain = Chain-trans s.chain t.chain;
  final = λ h. t.final (rw (Chain-terminal s.chain h) h) ∙ s.final h;
  same_id = t.same_id ∙ s.same_id;
  same_organization = t.same_organization ∙ s.same_organization;
  same_input = t.same_input ∙ s.same_input;
}

same_status→≡ : (a b : AgentRunStatus) → same_status a b ≡ true → a ≡ b
same_status→≡ a b h = ground arith

no_exit : (a b : AgentRunStatus) → can_transition a b ≡ true → is_terminal a ≡ true → ⊥
no_exit a b e t = ground arith

-- one legal transition, with the request kept
legal :
    (r r' : AgentRun)
    → can_transition r.status r'.status ≡ true
    → r'.id ≡ r.id
    → r'.organization_id ≡ r.organization_id
    → r'.input ≡ r.input
    → Evolves r r'
legal r r' e i o p = record {
  chain = step e stay;
  final = λ t. absurd (no_exit r.status r'.status e t);
  same_id = i;
  same_organization = o;
  same_input = p;
}

-- a row that the WHERE does not match stays
guarded :
    (guard : AgentRun → Bool) (values : AgentRun → AgentRun) (r : AgentRun)
    → (guard r ≡ true → Evolves r (values r))
    → Evolves r (update_row guard values r)
guarded guard values r hit = elim (Bool-cases (guard r)) [
  | inl h ↦ rw h (hit h)
  | inr h ↦ rw h (Evolves-refl r)
]

-- the transitions out of the status that a WHERE asks for
from_queued :
    (s t : AgentRunStatus) (key rest : Bool)
    → can_transition queued t ≡ true
    → (key && (same_status s queued && rest)) ≡ true
    → can_transition s t ≡ true
from_queued s t key rest e h = ground arith

from_queued_alone :
    (s t : AgentRunStatus) (key : Bool)
    → can_transition queued t ≡ true
    → (key && same_status s queued) ≡ true
    → can_transition s t ≡ true
from_queued_alone s t key e h = ground arith

from_running :
    (s t : AgentRunStatus) (key rest : Bool)
    → can_transition running t ≡ true
    → (key && (same_status s running && rest)) ≡ true
    → can_transition s t ≡ true
from_running s t key rest e h = ground arith

running_not_terminal :
    (s : AgentRunStatus) (key rest : Bool)
    → (key && (same_status s running && rest)) ≡ true
    → is_terminal s ≡ true
    → ⊥
running_not_terminal s key rest h t = ground arith

update-Evolves : (o i : ℕ) (u : Update) (r : AgentRun) → Evolves r (update_of o i u r)
unfolding update_of mark_started mark_succeeded mark_failed mark_failed_if_queued
    mark_cancelled_after_run mark_cancelled_if_pending mark_cancel_requested
update-Evolves o i (start now) r =
    guarded (keyed o i is_startable) (start_values now) r
      (λ h. legal r (start_values now r) (from_queued r.status running _ _ refl h) refl refl refl)
update-Evolves o i (succeed output cost at) r =
    guarded (keyed o i is_in_flight) (succeed_values output cost at) r (λ h.
      legal r (succeed_values output cost at r) (from_running r.status succeeded _ _ refl h) refl
        refl refl)
update-Evolves o i (fail error at) r =
    guarded (keyed o i is_in_flight) (fail_values error at) r (λ h.
      legal r (fail_values error at r) (from_running r.status failed _ _ refl h) refl refl refl)
update-Evolves o i (fail_queued error at) r =
    guarded (keyed o i is_queued) (fail_values error at) r (λ h.
      legal r (fail_values error at r) (from_queued_alone r.status failed _ refl h) refl refl refl)
update-Evolves o i (cancel_after_run at) r =
    guarded (keyed o i is_flagged) (stop_values at) r
      (λ h. legal r (stop_values at r) (from_running r.status cancelled _ _ refl h) refl refl refl)
update-Evolves o i (cancel_pending requested_at by at) r =
    guarded (keyed o i is_startable) (withdraw_values requested_at by at) r (λ h.
      legal r (withdraw_values requested_at by at r) (from_queued r.status cancelled _ _ refl h)
        refl refl refl)
update-Evolves o i (flag_cancel requested_at by) r =
    guarded (keyed o i is_in_flight) (flag_values requested_at by) r (λ h. record {
      chain = stay;
      final = λ t. absurd (running_not_terminal r.status _ _ h t);
      same_id = refl;
      same_organization = refl;
      same_input = refl;
    })

-- the rows of two tables, one by one
pub data Rowwise : List AgentRun → List AgentRun → Type 0 where
  none_left : Rowwise [] []
  row :
      {r r' : AgentRun} {rs rs' : List AgentRun}
      → Evolves r r'
      → Rowwise rs rs'
      → Rowwise (r ∷ rs) (r' ∷ rs')

one_statement : (o i : ℕ) (u : Update) (rs : List AgentRun) → Rowwise rs (map (update_of o i u) rs)
one_statement o i u [] = none_left
one_statement o i u (r ∷ rs) = row (update-Evolves o i u r) (one_statement o i u rs)

Rowwise-refl : (rs : List AgentRun) → Rowwise rs rs
Rowwise-refl [] = none_left
Rowwise-refl (r ∷ rs) = row (Evolves-refl r) (Rowwise-refl rs)

Rowwise-trans : {xs ys zs : List AgentRun} → Rowwise xs ys → Rowwise ys zs → Rowwise xs zs
Rowwise-trans none_left none_left = none_left
Rowwise-trans (row e t) (row e' t') = row (Evolves-trans e e') (Rowwise-trans t t')

-- Whatever UPDATEs the workers, sweeps and cancels issue, and in whatever order the database runs
-- them, every run moves by transitions that `can_transition` allows, keeps every column once it is
-- terminal, and keeps its id, organization and input.
pub execute-Rowwise : (ss : List Statement) (runs : List AgentRun) → Rowwise runs (execute ss runs)
unfolding execute
execute-Rowwise [] runs = Rowwise-refl runs
execute-Rowwise (s ∷ ss) runs =
    Rowwise-trans (one_statement s.organization_id s.run_id s.update runs) (execute-Rowwise ss _)

-- A run can be cancelled exactly when the state machine lets it become CANCELLED, which is exactly
-- when it is not terminal.
pub cancellable_iff :
    (status : AgentRunStatus)
    → (is_cancellable status ≡ can_transition status cancelled)
      × (is_cancellable status ≡ not (is_terminal status))
cancellable_iff queued = (refl, refl)
cancellable_iff running = (refl, refl)
cancellable_iff succeeded = (refl, refl)
cancellable_iff failed = (refl, refl)
cancellable_iff cancelled = (refl, refl)
