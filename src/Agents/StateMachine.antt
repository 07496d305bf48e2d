-- ===== src/Agents/StateMachine.antt =====
-- backend/app/agents/state_machine.py and AgentRunStatus of models/enums.py.
use agency_os.Prelude.{ℕ, Bool, false, ◌||◌, List, [], ◌∷◌, ◌==◌, if◌then◌else◌}
use agency_os.Db.Session.{M, raise, pure}

pub data AgentRunStatus : Type 0 where
  queued running succeeded failed cancelled : AgentRunStatus

-- the identity of enum members
abbrev status_number : AgentRunStatus → ℕ
status_number queued = 0
status_number running = 1
status_number succeeded = 2
status_number failed = 3
status_number cancelled = 4

abbrev pub same_status : AgentRunStatus → AgentRunStatus → Bool
same_status a b = status_number a == status_number b

-- `status in statuses`
abbrev pub one_of : List AgentRunStatus → AgentRunStatus → Bool
one_of [] status = false
one_of (s ∷ ss) status = same_status s status || one_of ss status

abbrev pub terminal_statuses : List AgentRunStatus
terminal_statuses = succeeded ∷ failed ∷ cancelled ∷ []

-- `_ALLOWED_TRANSITIONS`
abbrev pub allowed_transitions : AgentRunStatus → List AgentRunStatus
allowed_transitions queued = running ∷ failed ∷ cancelled ∷ []
allowed_transitions running = succeeded ∷ failed ∷ cancelled ∷ []
allowed_transitions succeeded = []
allowed_transitions failed = []
allowed_transitions cancelled = []

abbrev pub is_terminal : AgentRunStatus → Bool
is_terminal status = one_of terminal_statuses status

abbrev pub can_transition : AgentRunStatus → AgentRunStatus → Bool
can_transition from_status to_status = one_of (allowed_transitions from_status) to_status

unfoldable pub assert_transition : AgentRunStatus → AgentRunStatus → M (Unit {0})
assert_transition from_status to_status =
    if can_transition from_status to_status
    then pure tt
    else raise "agent_run.illegal_transition" 409

abbrev pub is_cancellable : AgentRunStatus → Bool
is_cancellable status = one_of (queued ∷ running ∷ []) status
