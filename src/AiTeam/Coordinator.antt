-- ===== src/AiTeam/Coordinator.antt =====
-- The coordinator's loop over the items of a mission: ai_team/coordinator/engine.py.
pub mod Sound
pub mod Budget
pub mod Queueing
pub mod Chosen
pub mod Answered
pub mod Turn
pub mod Rounds
pub mod Live
pub mod LiveTurn
pub mod Idle
use tmis.Prelude.{
  ℕ, zero, suc, ◌-◌, String, not, ◌||◌, Option, none, some, List, [], ◌∷◌, ◌++◌, if◌then◌else◌,
  ◌==◌, nat_eq, string_eq, key_eq, length, keep,
}
use tmis.Prelude.Dict.{get, put}
use tmis.Prelude.Sort.{sort}
use tmis.Prelude.Python.{key_error, Result, ok, raise, ◌>>=◌, ◌>>◌, append}
use tmis.Prelude.Int.{ℤ, pos}
use tmis.AiTeam.Mission.{
  Setting, Run, items_of, sub_task_ids, is_met, index_of, sub_tasks_by_id, or_empty,
}
use tmis.AiTeam.Capabilities.{task_value, role_value}
use tmis.AiTeam.Agents.{AgentInput, AgentOutput, text_of, Agent}
use tmis.AiTeam.Planner.{SubTask, MissionPlan}
use tmis.AiTeam.Planner.Ordered.{has_id}
use tmis.AiTeam.Delegation.{Team, DelegationRecord, assign_agent}
use tmis.AiTeam.Context.{build_context_for}
use tmis.AiTeam.WorkQueue.{
  WorkItemStatus, pending, WorkItem, WorkQueue, enqueue_item, is_runnable, runs_first, head_item,
  mark_item_running, mark_item_done, mark_item_failed,
}

module _ {W : Type 0} where
  -- `_next_runnable_item`
  unfoldable pub next_runnable_item : Run W → Option WorkItem
  unfolding items_of runs_first
  next_runnable_item run =
      head_item
        (sort runs_first (keep is_runnable (items_of run.office.queue run.mission.work_item_ids)))

module _ {W : Type 0} (setting : Setting W) (team : Team) where
  open setting use {registry, agents, str, now, elapsed, task_id, new_id}

  -- The delegation of a sub-task in a run: the agent and the records.
  abbrev pub delegated : SubTask → Run W → Option String × List DelegationRecord
  delegated sub_task run =
      assign_agent registry (now run.office.world) run.office.delegations run.mission.id sub_task
        team

  abbrev pub new_item : ℤ → SubTask → Run W → WorkItem
  new_item priority sub_task run = record {
    id = new_id run.office.queue;
    sub_task_id = sub_task.id;
    agent_id = or_empty (delegated sub_task run).0;
    priority = priority;
    status = WorkItemStatus.pending;
    attempts = 0;
    max_attempts = 3;
    timeout = 60_000;
    created_at = now run.office.world;
    started_at = none;
    completed_at = none;
    result = none;
    error = none;
  }

  -- `assign_agent`, and the new item with its place in the queue and in the mission.
  unfoldable pub enqueue_sub_task : ℤ → SubTask → Run W → Run W
  unfolding assign_agent enqueue_item
  enqueue_sub_task priority sub_task run =
      let item = new_item priority sub_task run in
      record run {
        mission = record run.mission { work_item_ids = run.mission.work_item_ids ++ item.id ∷ [] };
        office = record run.office {
          queue = enqueue_item run.office.queue item;
          delegations = (delegated sub_task run).1;
        };
      }

  -- The loop of `_enqueue_ready_subtasks`, with the set that it computes before it starts.
  unfoldable pub enqueue_ready_from : List String → MissionPlan → Run W → Run W
  unfolding enqueue_sub_task
  enqueue_ready_from enqueued [] run = run
  enqueue_ready_from enqueued (t ∷ ts) run =
      let plan = run.mission.plan in
      let priority = pos (length plan - index_of t.id plan) in
      let after_none = enqueue_ready_from enqueued ts run in
      let after_one = enqueue_ready_from enqueued ts (enqueue_sub_task priority t run) in
      if has_id t.id enqueued || not (is_met run.mission t) then after_none else after_one

  unfoldable pub enqueue_ready_subtasks : Run W → Run W
  unfolding enqueue_ready_from items_of
  enqueue_ready_subtasks run =
      enqueue_ready_from (sub_task_ids (items_of run.office.queue run.mission.work_item_ids))
        run.mission.plan run

  abbrev pub with_queue : WorkQueue → Run W → Run W
  with_queue queue run = record run { office = record run.office { queue = queue } }

  unfoldable pub fail_item : String → WorkItem → Run W → Result (Unit {0}) × Run W
  unfolding mark_item_failed
  fail_item error item run =
      let (marked, queue) =
        mark_item_failed (now run.office.world) error run.office.queue item.id in
      ((do marked; ok tt), with_queue queue run)

  -- The mission, its context and the metrics after an agent's output.
  abbrev pub with_output : ℕ → SubTask → WorkItem → AgentOutput → Run W → Run W
  with_output duration sub_task item output run =
      let descriptor = get registry item.agent_id in
      record run {
        mission = record run.mission { results = put run.mission.results sub_task.id output };
        context =
            put run.context (append (task_value sub_task.task_type) "_result") (text_of output);
        office = record run.office {
          runs =
              run.office.runs
              ++ record {
                mission_id = run.mission.id;
                sub_task_id = sub_task.id;
                agent_id = item.agent_id;
                duration = duration;
                cost_usd = elim descriptor [ none ↦ 0 | some d ↦ d.estimated_cost_usd ];
                quality_score = elim descriptor [ none ↦ 0 | some d ↦ d.quality_score ];
                recorded_at = now run.office.world;
              }
                ∷ [];
        };
      }

  unfoldable pub succeed_item :
      ℕ → SubTask → WorkItem → AgentOutput → Run W → Result (Unit {0}) × Run W
  unfolding mark_item_done enqueue_ready_subtasks
  succeed_item duration sub_task item output run =
      let (marked, queue) = mark_item_done (now run.office.world) output run.office.queue item.id in
      elim marked [
        | raise exc ↦ (raise exc, with_queue queue run)
        | ok _ ↦ (
          ok tt,
          enqueue_ready_subtasks (with_output duration sub_task item output (with_queue queue run)),
        )
      ]

  -- `self._agents.get(item.agent_id) if item.agent_id else None`
  abbrev pub find_agent : String → Option (Agent W)
  find_agent agent_id = if agent_id == "" then none else get agents agent_id

  unfoldable pub call_agent : Agent W → SubTask → WorkItem → Run W → Result (Unit {0}) × Run W
  unfolding fail_item succeed_item build_context_for
  call_agent agent sub_task item run =
      let (slice, trace) =
        build_context_for (now run.office.world) run.office.trace run.mission.id
          sub_task.assigned_role run.context in
      let input : AgentInput = record {
        task_id = task_id run.office.world;
        case_id = none;
        context = slice.content;
      } in
      let (outcome, world) = agent input run.office.world in
      let after = record run { office = record run.office { trace = trace; world = world } } in
      elim outcome [
        | raise exc ↦ fail_item (str exc) item after
        | ok output ↦ succeed_item (elapsed run.office.world world) sub_task item output after
      ]

  -- One round of the `while` loop of `run_mission`.
  unfoldable pub turn : WorkItem → Run W → Result (Unit {0}) × Run W
  unfolding call_agent sub_tasks_by_id mark_item_running
  turn item run = elim (get (sub_tasks_by_id [] run.mission.plan) item.sub_task_id) [
    | none ↦ (raise (key_error item.sub_task_id), run)
    | some sub_task ↦
        let (marked, queue) = mark_item_running (now run.office.world) run.office.queue item.id in
        elim marked [
          | raise exc ↦ (raise exc, with_queue queue run)
          | ok _ ↦ elim (find_agent item.agent_id) [
            | none ↦
                fail_item (append "no agent available for " (role_value sub_task.assigned_role))
                  item (with_queue queue run)
            | some agent ↦ call_agent agent sub_task item (with_queue queue run)
          ]
        ]
  ]

  unfoldable pub rounds : ℕ → Run W → Result (Unit {0}) × Run W
  unfolding next_runnable_item turn
  rounds zero run = (ok tt, run)
  rounds (suc fuel) run = elim (next_runnable_item run) [
    | none ↦ (ok tt, run)
    | some item ↦
        let (r, run') = turn item run in
        elim r [ raise exc ↦ (raise exc, run') | ok _ ↦ rounds fuel run' ]
  ]
