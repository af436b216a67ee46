-- ===== src/AiTeam/Coordinator/Turn.antt =====
-- One round of the loop of `run_mission`: whatever the agent does, the mission stays sound and there
-- is less work left.
use tmis.Prelude.{
  ℕ, suc, ◌+◌, ◌≤◌, ◌<◌, String, ◌≡◌, refl, ap, inl, inr, true, none, some, arith, ltb, Bool-cases,
  Option-cases, nat_eq, string_eq, key_eq,
}
use tmis.Prelude.Dict.{get, put, get-put_self}
use tmis.Prelude.Python.{Result, ok, raise, Result-cases, append}
use tmis.AiTeam.Capabilities.{role_value}
use tmis.AiTeam.Agents.{AgentInput, AgentOutput, Agent}
use tmis.AiTeam.Planner.{SubTask}
use tmis.AiTeam.Delegation.{Team}
use tmis.AiTeam.Context.{build_context_for}
use tmis.AiTeam.WorkQueue.{
  WorkItem, WorkQueue, is_runnable, started, mark_item_running, failing, mark_item_failed,
}
use tmis.AiTeam.Mission.{Mission, Office, Setting, Run}
use tmis.AiTeam.Coordinator.{
  next_runnable_item, with_queue, fail_item, succeed_item, find_agent, call_agent, turn,
}
use tmis.AiTeam.Coordinator.Sound.{by_id}
use tmis.AiTeam.Coordinator.Budget.{item_work, total_work}
use tmis.AiTeam.Coordinator.Queueing.{IsFresh, SoundRun, enqueue_ready_subtasks-Requeued}
use tmis.AiTeam.Coordinator.Chosen.{InQueue, next_runnable_item-InQueue}
use tmis.AiTeam.Coordinator.Answered.{
  change_twice, change_item-found, started_run, succeed_item-found, answered_run,
  answered_run-Sound,
}

-- What an operation gives that starts from `run`.
pub record Turned {W : Type 0} (run : Run W) (r : Result (Unit {0}) × Run W) : Type 0 where
  pub returns : r.0 ≡ ok tt
  pub sound : SoundRun r.1
  pub less : suc (total_work r.1.office.queue r.1.mission) ≤ total_work run.office.queue run.mission
  pub same_plan : r.1.mission.plan ≡ run.mission.plan

failing-work :
    (now now' : ℕ) (error : String) (item : WorkItem)
    → is_runnable item ≡ true
    → item_work (failing now' error (started now item)) + 1 ≤ item_work item
failing-work now now' error item runnable =
    elim (Bool-cases (ltb (item.attempts + 1) item.max_attempts)) [
      | inl again ↦
          let less : item.attempts + 1 < item.max_attempts = ground arith in
          rw (again, runnable) (omega (arith, less))
      | inr last_one ↦ rw (last_one, runnable) (omega arith)
    ]

failing-same :
    (now : ℕ) (error : String) (item : WorkItem)
    → ((failing now error item).id ≡ item.id)
      × ((failing now error item).sub_task_id ≡ item.sub_task_id)
failing-same now error item = elim (Bool-cases (ltb item.attempts item.max_attempts)) [
  | inl again ↦ rw again (refl, refl)
  | inr last_one ↦ rw last_one (refl, refl)
]

module _ {W : Type 0} (setting : Setting W) (fresh : IsFresh setting) (team : Team) where
  open setting use {now}

  fail_item-Turned :
      (t : ℕ) (error : String) (office : Office W) (run : Run W) (item : WorkItem)
      → SoundRun run
      → get run.office.queue item.id ≡ some item
      → is_runnable item ≡ true
      → Turned run (fail_item setting team error item (started_run t item office run))
  unfolding fail_item mark_item_failed
  fail_item-Turned t error office run item sound there runnable =
      let i1 = started t item in
      let i2 = failing (now office.world) error i1 in
      let marked =
        change_item-found (failing (now office.world) error) (put run.office.queue item.id i1)
          item.id i1 (get-put_self run.office.queue item.id i1) in
      let same = failing-same (now office.world) error i1 in
      let (sound', less) =
        change_twice run.office.queue run.mission item i1 i2 sound there refl refl same.0 same.1
          (failing-work t (now office.world) error item runnable) in
      rw marked (record { returns = refl; sound = sound'; less = less; same_plan = refl })

  succeed_item-Turned :
      (t duration : ℕ) (output : AgentOutput) (office : Office W) (run : Run W) (item : WorkItem)
      (sub_task : SubTask)
      → SoundRun run
      → InQueue run.office.queue run.mission item
      → is_runnable item ≡ true
      → get (by_id run.mission) item.sub_task_id ≡ some sub_task
      → Turned run
          (succeed_item setting team duration sub_task item output (started_run t item office run))
  succeed_item-Turned t duration output office run item sub_task sound in_queue runnable known =
      let i1 = started t item in
      let done_one =
        succeed_item-found setting fresh team duration sub_task item i1 output
          (started_run t item office run) (get-put_self run.office.queue item.id i1) in
      let (sound', less) =
        answered_run-Sound setting fresh team t duration output office run item sub_task sound
          in_queue runnable known in
      let run' = answered_run setting fresh team t duration sub_task output office item run in
      let again = enqueue_ready_subtasks-Requeued setting fresh team run' sound' in
      rw done_one (record {
        returns = refl;
        sound = again.sound;
        less = omega (arith, less, again.no_more);
        same_plan = ap (λ (m : Mission). m.plan) again.mission;
      })

  call_agent-Turned :
      (t : ℕ) (agent : Agent W) (run : Run W) (item : WorkItem) (sub_task : SubTask)
      → SoundRun run
      → InQueue run.office.queue run.mission item
      → is_runnable item ≡ true
      → get (by_id run.mission) item.sub_task_id ≡ some sub_task
      → Turned run (call_agent setting team agent sub_task item (started_run t item run.office run))
  unfolding call_agent
  call_agent-Turned t agent run item sub_task sound in_queue runnable known =
      let start = started_run t item run.office run in
      let (slice, trace) =
        build_context_for (now run.office.world) run.office.trace run.mission.id
          sub_task.assigned_role run.context in
      let input : AgentInput = record {
        task_id = setting.task_id run.office.world;
        case_id = none;
        context = slice.content;
      } in
      let world = (agent input run.office.world).1 in
      let office = record run.office { trace = trace; world = world } in
      elim (Result-cases (agent input run.office.world).0) [
        | inl (output, answered) ↦
            rw (call_agent, answered)
              (succeed_item-Turned t (setting.elapsed run.office.world world) output office run item
                sub_task sound in_queue runnable known)
        | inr (exc, raised) ↦
            rw (call_agent, raised)
              (fail_item-Turned t (setting.str exc) office run item sound in_queue.0 runnable)
      ]

  pub turn-started :
      (item : WorkItem) (sub_task : SubTask) (run : Run W)
      → get (by_id run.mission) item.sub_task_id ≡ some sub_task
      → get run.office.queue item.id ≡ some item
      → turn setting team item run ≡ elim (find_agent setting team item.agent_id) [
        | none ↦
            fail_item setting team
              (append "no agent available for " (role_value sub_task.assigned_role))
              item
              (started_run (now run.office.world) item run.office run)
        | some agent ↦
            call_agent setting team agent sub_task item
              (started_run (now run.office.world) item run.office run)
      ]
  unfolding turn mark_item_running
  turn-started item sub_task run known there =
      let marked =
        change_item-found (started (now run.office.world)) run.office.queue item.id item there in
      rw (turn, known)
        (ap
          (λ (r : Result WorkItem × WorkQueue). elim r.0 [
            | raise exc ↦ (raise exc, with_queue setting team r.1 run)
            | ok _ ↦ elim (find_agent setting team item.agent_id) [
              | none ↦
                  fail_item setting team
                    (append "no agent available for " (role_value sub_task.assigned_role)) item
                    (with_queue setting team r.1 run)
              | some agent ↦
                  call_agent setting team agent sub_task item (with_queue setting team r.1 run)
            ]
          ])
          marked)

  pub turn-Turned :
      (run : Run W) (item : WorkItem)
      → SoundRun run
      → next_runnable_item run ≡ some item
      → Turned run (turn setting team item run)
  turn-Turned run item sound chosen =
      let (in_queue, runnable) = next_runnable_item-InQueue run item sound chosen in
      let (there, backed) = in_queue in
      let (sub_task, known, met) = backed in
      let started_one = turn-started item sub_task run known there in
      rw started_one (elim (Option-cases (find_agent setting team item.agent_id)) [
        | inl nobody ↦
            rw nobody
              (fail_item-Turned (now run.office.world) _ run.office run item sound there runnable)
        | inr (agent, found) ↦ rw found (
            call_agent-Turned (now run.office.world) agent run item sub_task sound in_queue runnable
              known)
      ])
