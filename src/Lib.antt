-- ===== src/Lib.antt =====
-- Verification of the workflow and platform core of the TMIS backend (backend/src/tmis).
--
-- The program is a set of engines over in-memory stores. A workflow (workflow_engine) is a list of
-- steps with actions (action_engine) and conditions (condition_engine), started by triggers on
-- events (trigger_engine, event_bus). The execution engine (execution_engine) runs it under a retry
-- policy (retry), a rollback engine (rollback) compensates actions, the simulation engine
-- (simulation) predicts a run, rules (rule_engine) are named conditions of a firm, and a scheduler
-- (scheduler) fires triggers by time. An approval gateway (approval_gateway) asks for human
-- validation (ai_governance/human_validation). Beside them stand the job queue
-- (runtime_platform/async_processing), licenses (business_platform/licenses), incidents
-- (cloud_operations/incident_management) and the approvals of a workspace
-- (collaboration/approvals). Teams of AI agents (ai_team) work on missions: a planner splits a
-- mission into sub-tasks, a coordinator queues each of them once those that it depends on have
-- results, delegates it to an agent of the team, retries an agent that raises, and puts the results
-- together; a person may exclude an agent or ask for an analysis again.
--
-- Which file models which part, where a directory without a path is in workflow_automation:
-- - Prelude: names passed on from the library, dicts as association lists in the order of
--   insertion, sorting, exceptions as values and the built-in functions of Python.
-- - Condition: condition_engine (ConditionEngine.evaluate and its helpers).
-- - Action, Retry, Rollback: action_engine, retry and rollback, one function per method.
-- - Trigger: trigger_engine and event_bus/schemas.py.
-- - Workflow: workflow_engine. Schemas has the data, Versions the store and WorkflowEngine.
-- - Execution: execution_engine. Schemas has the data and the store, Step has _run_step and
--   asyncio.gather, Run has start, get, resume, _run_from and the telemetry.
-- - Simulation: simulation. Rule: rule_engine. Schedule: scheduler. Approval: approval_gateway.
-- - Validation: ai_governance/human_validation. Job: runtime_platform/async_processing.
-- - License: business_platform/licenses. Incident: cloud_operations/incident_management.
-- - Signoff: collaboration/approvals.
-- - AiTeam: ai_team. Capabilities has the templates, domains and roles, Agents the agents' inputs,
--   outputs and registry; Planner, Delegation, Context, WorkQueue, Teams, HumanLoop, Memory and
--   Metrics have the packages of these names. Of coordinator, Mission has the data, Coordinator the
--   loop of CoordinatorEngine.run_mission, a round of it (turn) and the queueing of ready sub-tasks,
--   Missions launch_mission, run_mission, _build_synthesis and the store, and Decisions
--   apply_human_decision.
--
-- State. A store is a dict; an engine that changes an object which its store holds writes the
-- changed object back under the key at which it was found. An operation takes the store and returns
-- its result, a value or a raised exception, with the store that it leaves.
-- Fresh identifiers and the time are arguments, or come from a stamp of the world on which the
-- handlers act. Times and delays are natural numbers, in the unit that each file names; days and
-- priorities are integers. Handlers are parameters that may raise and change the world; they do not
-- write the context.
--
-- An execution that is started is added to the store, one that is resumed only changes in it where
-- the store holds it, by its firm and identifier.
--
-- Parameters. Builtins has repr, str of an exception, float and date.fromisoformat with their
-- failures, and the number of frames that a generator takes on the stack under all or any. Setting
-- adds the room on the stack, the stamp, whether asyncio.wait_for gave up on a call, how
-- asyncio.sleep moves the world on, the retry limit, and which unfinished task of a group the event
-- loop moves next.
--
-- For AI teams, AiTeam.Mission.Setting has the registry, the agents, the text of an exception,
-- the clock, and the new identifier of an item, which a theorem assumes to be new to the queue where
-- it needs that, as those of uuid4 are. An agent is a function of its input and of a world, and may
-- raise. Costs, durations and qualities of agents are in thousandths.
--
-- Bounds and fuel. run_mission runs its loop on fuel one above total_work: the attempts that the
-- queue's items have left, and four units for each sub-task that has no item. A round takes an
-- item and uses an attempt of it up, and a new item takes the place of a sub-task with none, so
-- that each round leaves less. evaluate counts the frames left on Python's stack, one for each
-- call of it and of its own helpers and generator_frames for a generator, and where none is left
-- it raises RecursionError as Python does. The room is what is left beside the frames that an
-- interpreter may count for a call of a built-in function such as dict.get, from which nothing
-- calls back. gather runs on fuel that is the total work of its tasks, the moves that they can
-- still make. The loop of _run_from is structural: it collects a parallel group while its steps
-- share a tag, and runs the group at the first step of another.
--
-- Not modelled: what the tasks of a group still write to the journal after one of them has raised;
-- the signature of a license key; the event bus, the audit journal, the designer and the templates;
-- missions that run at the same time over one queue; what ai_team only logs or counts for the
-- process; the HTTP layer, the database and the packages that call language models.
pub mod Prelude
pub mod Condition
pub mod Action
pub mod Retry
pub mod Rollback
pub mod Trigger
pub mod Workflow
pub mod Execution
pub mod Simulation
pub mod Validation
pub mod Approval
pub mod Job
pub mod License
pub mod Rule
pub mod Schedule
pub mod Incident
pub mod Signoff
pub mod AiTeam
