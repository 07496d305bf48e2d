-- ===== src/Lib.antt =====
-- The automation core of AgencyOS (backend/app, Python): workflow executions, the kill switch
-- above them, the cron schedules that start them, the state machine of agent runs, the outbox that
-- sends notifications, the approvals that gate executions, the engine that runs declarative steps
-- in process, the sales pipeline, the members of an organization, and the role matrix that says
-- who may do what.
--
-- How the parts interact. A workflow execution is a row of `workflow_executions`. The service
-- (backend/app/services/workflow_execution_service.py) queues it, a worker claims and finishes it,
-- a sweep times it out or queues it again, and a user cancels or retries it. Many processes do
-- this at once; what keeps them apart is that every transition is one guarded `UPDATE ... WHERE
-- ... RETURNING` of the repository (backend/app/repositories/workflow_execution.py). The kill
-- switch (backend/app/services/automation_control_service.py) is a row of `system_settings` that
-- `queue` and `retry` read. The worker (backend/app/workers/execution_worker.py) sweeps that
-- queue: retries that are due, queued rows by organization, and rows that run for too long. A
-- workflow of mode `builtin` is run by the step engine
-- (backend/app/services/builtin_execution.py), whose definitions were validated when they were
-- stored. An approval request (backend/app/services/approval_service.py) is decided once; a sweep
-- of the gate (backend/app/services/approval_gate_service.py) applies the decision to the linked
-- execution by `retry` or `cancel`. A schedule trigger names a cron expression, whose last fire
-- time (backend/app/services/schedule_cron.py) decides whether a tick is due; the dispatcher
-- (backend/app/services/schedule_dispatcher.py) reserves the tick in `workflow_triggers` and
-- queues an execution for it in one savepoint. Agent runs (backend/app/repositories/agent_run.py)
-- are a second queue of the same design, whose legal transitions are a table
-- (backend/app/agents/state_machine.py). Deliveries (backend/app/services/delivery_service.py) are
-- a third such queue: the worker (backend/app/workers/delivery_worker.py) recovers stale rows,
-- promotes retries that are due, claims the due rows of each organization, calls a provider and
-- lands the row by what it answers. The pipeline (backend/app/services/pipeline_service.py) keeps
-- a lead's status, its stage and its timestamps in step; members are changed by
-- backend/app/services/user_service.py. Endpoints ask backend/app/core/permissions.py for the
-- permissions of a role. Apart from these stands the gate that limits mails to one per address and
-- window (backend/app/services/resend_cooldown.py).
--
-- The files, with the code that each models. Paths in this list are below backend/app:
--
-- Prelude, Prelude/*         Boolean tests on native numbers, lists, ASCII texts (`strip`, `split`,
--                            `partition`, `isdigit`), integers.
-- Db/Tables                  the tables and enumerations: models/workflow_execution.py,
--                            models/execution_event.py, models/enums.py, the metrics.
-- Db/Session                 a service method as a function on the database that returns a result or an
--                            AppError (core/errors.py).
-- Automation                 AutomationControlService; Automation/Laws and Automation/Examples.
-- Execution/Repository       WorkflowExecutionRepository: get, get_or_404 and the `mark_*` UPDATEs,
--                            each by its WHERE test and its SET values.
-- Execution/Service/*        WorkflowExecutionService: Queueing (`queue`), Running (`start`,
--                            `complete`, `fail`, `fail_queued`, `timeout`), Requeue (`retry`,
--                            `requeue_due`), Cancel (`cancel`), Helpers (payload check, audit and
--                            timeline rows, metrics, `_retry_delay_seconds`).
-- Execution/Calls            a method with its arguments as data; histories of calls, in which other
--                            sessions take turns between a method's read and its UPDATE.
-- Execution/Lifecycle        the state machine that the service promises of a row.
-- Execution/Statements       the UPDATEs and the insert as data, and what one of them may do to a row.
-- Execution/Guarantee, Methods, Evolution, Consistency, Histories
--                            every method against the lifecycle and the columns, for all histories.
-- Execution/Outcomes/*       what each method does, branch by branch.
-- Execution/Worker           ExecutionWorker: `sweep`, `process_retries`, `process_queued`,
--                            `timeout_stuck`, `_safe_phase`, and the queue reads of the repository;
--                            Execution/Sweeping and Execution/Landing are about them.
-- Approval/Requests          models/approval_request.py, models/approval_log.py and
--                            ApprovalRequestRepository.
-- Approval/Service           ApprovalService: `create_request`, `decide`; Deciding and Finality are about
--                            them.
-- Approval/Gate              ApprovalGateService: `_gate_action`, `_process_gate`, `sweep`; Claims, Gating
--                            and Sweeps are about them.
-- Builtin/Values, Runs       JSON values with the operators of Python that the engine uses; how a run ends.
-- Builtin/Templates          services/builtin_execution.py: `_validate_path`, `_validate_key`, `_resolve`,
--                            `_stringify`, `_render_template` with its pattern.
-- Builtin/Validate           `validate_builtin_definition`, `_validate_step`, `_validate_guard`,
--                            `_check_budget`.
-- Builtin/Engine             `run_builtin_definition`, `_run_steps`, `_evaluate_guard`.
-- Builtin/Safe, Admitted, Soundness, Nesting, Definitions
--                            what the validator's acceptance says of a run.
-- Cron/Parse                 `_coerce_item`, `_parse_field`, `validate_cron`, `_fields_from`.
-- Cron/Calendar              the month, day and weekday of an ordinal date.
-- Cron/Fire                  `_matches_minute`, `_day_matches`, `previous_fire`.
-- Dispatch/Triggers          WorkflowTriggerRepository: `list_enabled_schedules`, `reserve_last_fired`.
-- Dispatch/Sweep             ScheduleDispatcher: `dispatch_due`; Ticks, Counts and Due are about it.
-- Permissions                core/permissions.py and UserRole.
-- Agents/StateMachine        agents/state_machine.py.
-- Agents/Runs                AgentRunRepository: the `mark_*` UPDATEs, one row at a time.
-- Cooldown                   services/resend_cooldown.py: the process-local store; Cooldown/Window.
-- Db/Rows, Db/Store, Db/Search
--                            a table of any type of row under guarded UPDATEs, a service method on a
--                            store of any type, what a search in an ordered table finds.
-- Delivery/Rows              models/delivery.py; each transition of DeliveryRepository by its WHERE test
--                            and its SET values; sequences of statements.
-- Delivery/Outbox            the tables with the counters; models/delivery_event.py.
-- Delivery/Worker, Sweep     DeliveryWorker: `_attempt`, `_land`, `_mark_delivered`, `_backoff`,
--                            `_drain_org`; `_recover_stale`, `sweep_once`.
-- Delivery/Service           DeliveryService: `enqueue`, `cancel`, `retry`, `get`.
-- Delivery/Lifecycle, Columns, Promises, Methods
--                            the state machine and the columns of a delivery, and every method that
--                            moves a row.
-- Delivery/Budget, Passes, Rounds
--                            the attempts of one delivery, from pass to pass of the worker.
-- Delivery/Found, Cancel, Enqueue
--                            what the methods of the service do, branch by branch.
-- Pipeline/Board             the rows of stages, close reasons and leads; PipelineStageRepository and
--                            the queries of LeadRepository that the pipeline makes.
-- Pipeline/Stages            PipelineService: `_ensure_defaults`, `create_stage`, `update_stage`,
--                            `delete_stage`, `reorder_stages`.
-- Pipeline/Reconcile         PipelineService: `reconcile`, `_pick_stage`, `move`.
-- Pipeline/Seeded, Found, Placement, Statuses, Removal, Order
--                            the defaults, the stage that a lookup finds, and the methods above.
-- Team/Users                 UserService: `create`, `update` and their guards; Counts, Owners and Changes
--                            are about them.
-- The modules named Examples hold concrete runs and the instances of the theorems.
--
-- State and concurrency. The database is a record of lists of rows. A service method reads, tests,
-- and then runs a guarded UPDATE; between the two it yields to `others`, a function on the
-- database that stands for whatever other sessions commit meanwhile. A history nests whole calls
-- inside those yields, so that two methods of the service may interleave at every point at which
-- the code lets them. PostgreSQL evaluates the WHERE of an UPDATE again on the latest committed
-- row, which is why the test and the SET of one UPDATE are one step. A method that raises has
-- committed nothing, except what the other sessions did. In the outbox other sessions may act
-- before a claim and during the call of a provider; the lock that the claim holds on its row until
-- the commit is not modelled, so they may do more there than the database lets them. Of an
-- approval, others may act between the read of a request and the write of its decision, and
-- between the listing of a gate and its claim, and the write leaves out the columns that are
-- unchanged against the row that was read; an exception takes the stamp of a gate back and nothing
-- else, as the execution service has written nothing when it raises. The pipeline and the members
-- are modelled one request at a time.
--
-- Bounds and fuel. Numbers that the code keeps in arbitrary-precision `int` are naturals; times
-- are whole units since an origin, durations are integers. `range` recurs on stop - start, which
-- is the largest number of values that it can have for a step of at least 1. The walk over days in
-- `previous_fire` recurs on the code's own bound of 1462 days, and the search in a day on its
-- minutes. A history is a finite list of calls. The nesting of conditions in the step engine
-- recurs on the levels that `max_depth` leaves, and the cutting of a template on the length of its
-- text. A pass over a delivery is counted by the attempts that it has left.
--
-- From outside, as parameters: the limits of core/config.py, the byte size of a payload's JSON,
-- the milliseconds between two times, the new ids, the clock, and whether the best-effort timeline
-- write succeeds, what adapters and providers answer, which new rows the constraints of the
-- database admit, and the text that `json.dumps` makes of a value.
--
-- Not modelled: messages of errors and log lines; read-only listings and their paging; the HTTP
-- layer, the ORM, the language models, n8n and mail; the services and the worker that drive agent
-- runs; the other services (growth analytics, the storage of leads, memory, authentication);
-- heartbeats and the loops around the sweeps. Of the step engine, floating-point numbers and the
-- hook `on_step`. Of the pipeline, the seeding and the management of close reasons and the board
-- for the interface. Cron expressions are ASCII.
pub mod Prelude
pub mod Db
pub mod Automation
pub mod Execution
pub mod Cron
pub mod Dispatch
pub mod Permissions
pub mod Agents
pub mod Cooldown
pub mod Delivery
pub mod Pipeline
pub mod Team
pub mod Approval
pub mod Builtin
