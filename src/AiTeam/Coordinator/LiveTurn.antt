-- ===== src/AiTeam/Coordinator/LiveTurn.antt =====
-- A round of a mission whose agents all answer.
use tmis.Prelude.{
  ℕ, zero, suc, String, ◌≡◌, refl, ap, inl, inr, true, ◌||◌, none, some, List, [], ◌∷◌,
  Option-cases, nat_eq, string_eq, key_eq, Every, Every-map,
}
use tmis.Prelude.Dict.{get, get-put_self}
use tmis.AiTeam.Agents.{AgentInput, Agent}
use tmis.AiTeam.Context.{build_context_for}
use tmis.AiTeam.Planner.{SubTask}
use tmis.AiTeam.Planner.Ordered.{has_id}
use tmis.AiTeam.Delegation.{Team}
use tmis.AiTeam.WorkQueue.{WorkItem, WorkQueue, is_runnable, started, finished}
use tmis.AiTeam.Mission.{Mission, Setting, Run, items_of, has_result, is_met}
use tmis.AiTeam.Coordinator.{next_runnable_item, enqueue_ready_subtasks, call_agent, turn, rounds}
use tmis.AiTeam.Coordinator.Sound.{by_id}
use tmis.AiTeam.Coordinator.Chosen.{
  InQueue, next_runnable_item-Every, next_runnable_item-InQueue, by_id-id,
}
use tmis.AiTeam.Coordinator.Queueing.{IsFresh, SoundRun, queued_of, enqueue_ready_subtasks-Requeued}
use tmis.AiTeam.Coordinator.Answered.{
  started_run, succeed_item-found, answered_run, answered_run-Sound,
}
use tmis.AiTeam.Coordinator.Turn.{turn-started, turn-Turned}
use tmis.AiTeam.Coordinator.Live.{
  IsAnswering, IsManned, IsStaffed, IsWorked, IsLive, enqueue_ready_from-IsLive, finish-IsLive,
}

-- Every sub-task whose dependencies are met has an item.
abbrev pub IsSpread : {W : Type 0} → Run W → Type 0
IsSpread run =
    Every (λ (t : SubTask). is_met run.mission t ≡ true → has_id t.id (queued_of run) ≡ true)
      run.mission.plan

abbrev pub LiveRun : {W : Type 0} (setting : Setting W) (team : Team) → Run W → Type 0
LiveRun setting team run = IsLive setting team run.office.queue run.mission × IsSpread run

module _ {W : Type 0} (setting : Setting W) (fresh : IsFresh setting) (team : Team) where
  pub enqueue_ready_subtasks-LiveRun :
      (run : Run W)
      → SoundRun run
      → Every (IsStaffed setting team) run.mission.plan
      → IsLive setting team run.office.queue run.mission
      → LiveRun setting team (enqueue_ready_subtasks setting team run)
  enqueue_ready_subtasks-LiveRun run sound staffed live =
      let again = enqueue_ready_subtasks-Requeued setting fresh team run sound in
      let run' = enqueue_ready_subtasks setting team run in
      let plan : run'.mission.plan ≡ run.mission.plan =
        ap (λ (m : Mission). m.plan) again.mission in
      let results : run'.mission.results ≡ run.mission.results =
        ap (λ (m : Mission). m.results) again.mission in
      (
        unfold enqueue_ready_subtasks in
            enqueue_ready_from-IsLive setting team (queued_of run) run.mission.plan run fresh
              staffed live,
        rw plan
            (Every-map _ _ run.mission.plan (λ t h met. h (rw (← results) met)) again.queues_met),
      )

  items_of-IsManned :
      (queue : WorkQueue) (m : Mission) (ids : List String)
      → Every (IsWorked setting team queue m) ids
      → Every
          (λ (i : WorkItem).
            IsManned setting team i.agent_id
            × ((is_runnable i || has_result m.results i.sub_task_id) ≡ true))
          (items_of queue ids)
  unfolding items_of
  items_of-IsManned queue m [] h = tt
  items_of-IsManned queue m (j ∷ ids) ((i, there, manned, fine), h) =
      rw (items_of, there) ((manned, fine), items_of-IsManned queue m ids h)

  -- The call of an agent that answers.
  call_agent-LiveRun :
      (agent : Agent W) (run : Run W) (item : WorkItem) (sub_task : SubTask)
      → IsAnswering setting team agent
      → SoundRun run
      → Every (IsStaffed setting team) run.mission.plan
      → IsLive setting team run.office.queue run.mission
      → InQueue run.office.queue run.mission item
      → is_runnable item ≡ true
      → get (by_id run.mission) item.sub_task_id ≡ some sub_task
      → (let t = setting.now run.office.world in
          LiveRun setting team
            (call_agent setting team agent sub_task item (started_run t item run.office run)).1)
  unfolding call_agent
  call_agent-LiveRun agent run item sub_task answers sound staffed live in_queue runnable known =
      let t = setting.now run.office.world in
      let (slice, trace) =
        build_context_for t run.office.trace run.mission.id sub_task.assigned_role run.context in
      let input : AgentInput = record {
        task_id = setting.task_id run.office.world;
        case_id = none;
        context = slice.content;
      } in
      let (output, answered) = answers input run.office.world in
      let world = (agent input run.office.world).1 in
      let office = record run.office { trace = trace; world = world } in
      let duration = setting.elapsed run.office.world world in
      let done_one =
        succeed_item-found setting fresh team duration sub_task item (started t item) output
          (started_run t item office run)
          (get-put_self run.office.queue item.id (started t item)) in
      let run' = answered_run setting fresh team t duration sub_task output office item run in
      let sound' =
        (answered_run-Sound setting fresh team t duration output office run item sub_task sound
          in_queue runnable known).0 in
      let live' : IsLive setting team run'.office.queue run'.mission =
        rw (by_id-id run.mission item.sub_task_id sub_task known) (
          finish-IsLive setting team run.office.queue run.mission item (started t item)
            (finished (setting.now world) output (started t item)) output in_queue.0 refl refl
            live) in
      rw (call_agent, answered)
        (rw done_one (enqueue_ready_subtasks-LiveRun run' sound' staffed live'))

  turn-LiveRun :
      (run : Run W) (item : WorkItem)
      → SoundRun run
      → Every (IsStaffed setting team) run.mission.plan
      → next_runnable_item run ≡ some item
      → LiveRun setting team run
      → LiveRun setting team (turn setting team item run).1
  turn-LiveRun run item sound staffed chosen (live, spread) =
      let (in_queue, runnable) = next_runnable_item-InQueue run item sound chosen in
      let (there, backed) = in_queue in
      let (sub_task, known, met) = backed in
      let ((manned, fine), again) =
        next_runnable_item-Every _ run item
          (items_of-IsManned run.office.queue run.mission run.mission.work_item_ids live.worked)
          chosen in
      let (agent, found, answers) = manned in
      rw (turn-started setting fresh team item sub_task run known there) (
        rw found (
          call_agent-LiveRun agent run item sub_task answers sound staffed live in_queue runnable
            known))

  pub rounds-LiveRun :
      (fuel : ℕ) (run : Run W)
      → SoundRun run
      → Every (IsStaffed setting team) run.mission.plan
      → LiveRun setting team run
      → LiveRun setting team (rounds setting team fuel run).1
  unfolding rounds
  rounds-LiveRun zero run sound staffed live = live
  rounds-LiveRun (suc fuel) run sound staffed live = elim (Option-cases (next_runnable_item run)) [
    | inl no_one ↦ rw (rounds, no_one) live
    | inr (item, chosen) ↦
        let one = turn-Turned setting fresh team run item sound chosen in
        let after = (turn setting team item run).1 in
        rw (rounds, chosen)
          (rw (one.returns) (
            rounds-LiveRun fuel after one.sound (rw (one.same_plan) staffed)
              (turn-LiveRun run item sound staffed chosen live)))
  ]
