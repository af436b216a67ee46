-- ===== src/AiTeam/Coordinator/Answered.antt =====
-- What a round of the loop of `run_mission` does to the item that it takes, up to the agent's output.
use tmis.Prelude.{
  ℕ, suc, ◌+◌, ◌≤◌, String, ◌≡◌, refl, sym, ap, subst, true, some, arith, nat_eq, string_eq, key_eq,
}
use tmis.Prelude.Dict.{get, put, get-put_self}
use tmis.Prelude.Python.{Result, ok, raise}
use tmis.AiTeam.Agents.{AgentOutput}
use tmis.AiTeam.Planner.{SubTask}
use tmis.AiTeam.Delegation.{Team}
use tmis.AiTeam.WorkQueue.{
  WorkItem, WorkQueue, is_runnable, change_item, started, finished, mark_item_done,
}
use tmis.AiTeam.Mission.{Mission, Office, Setting, Run}
use tmis.AiTeam.Coordinator.{enqueue_ready_subtasks, with_queue, with_output, succeed_item}
use tmis.AiTeam.Coordinator.Sound.{by_id, IsBacked, IsSound, change-IsSound, result-IsSound}
use tmis.AiTeam.Coordinator.Budget.{item_work, total_work, change-total_work}
use tmis.AiTeam.Coordinator.Queueing.{IsFresh, SoundRun}
use tmis.AiTeam.Coordinator.Chosen.{InQueue, by_id-id}

-- An item that is changed twice.
pub change_twice :
    (queue : WorkQueue) (m : Mission) (item i1 i2 : WorkItem)
    → IsSound queue m
    → get queue item.id ≡ some item
    → i1.id ≡ item.id
    → i1.sub_task_id ≡ item.sub_task_id
    → i2.id ≡ i1.id
    → i2.sub_task_id ≡ i1.sub_task_id
    → item_work i2 + 1 ≤ item_work item
    → IsSound (put (put queue item.id i1) item.id i2) m
      × (suc (total_work (put (put queue item.id i1) item.id i2) m) ≤ total_work queue m)
change_twice queue m item i1 i2 sound there id1 task1 id2 task2 less =
    let now_there = get-put_self queue item.id i1 in
    let once = change-total_work queue m item.id item i1 there task1 in
    let twice = change-total_work (put queue item.id i1) m item.id i1 i2 now_there task2 in
    (
      change-IsSound (put queue item.id i1) m item.id i1 i2
          (change-IsSound queue m item.id item i1 sound there id1 task1) now_there id2 task2,
      omega (arith, once, twice, less),
    )

pub change_item-found :
    (change : WorkItem → WorkItem) (queue : WorkQueue) (k : String) (i : WorkItem)
    → get queue k ≡ some i
    → change_item change queue k ≡ (ok (change i), put queue k (change i))
unfolding change_item
change_item-found change queue k i there = rw (change_item, there) refl

module _ {W : Type 0} where
  -- A run in which the item has been started.
  abbrev pub started_run : ℕ → WorkItem → Office W → Run W → Run W
  started_run t item office run = record run {
    office = record office { queue = put run.office.queue item.id (started t item) };
  }

module _ {W : Type 0} (setting : Setting W) (fresh : IsFresh setting) (team : Team) where
  open setting use {now}

  pub succeed_item-found :
      (duration : ℕ) (sub_task : SubTask) (item i1 : WorkItem) (output : AgentOutput) (run : Run W)
      → get run.office.queue item.id ≡ some i1
      → succeed_item setting team duration sub_task item output run ≡ (
        ok tt,
        enqueue_ready_subtasks setting team (
            with_output setting team duration sub_task item output (
              with_queue setting team
                (put run.office.queue item.id (finished (now run.office.world) output i1))
                run)),
      )
  unfolding succeed_item mark_item_done
  succeed_item-found duration sub_task item i1 output run there =
      let marked =
        change_item-found (finished (now run.office.world) output) run.office.queue item.id i1
          there in
      ap
        (λ (r : Result WorkItem × WorkQueue). elim r.0 [
          | raise exc ↦ (raise exc, with_queue setting team r.1 run)
          | ok _ ↦ (
            ok tt,
            enqueue_ready_subtasks setting team (
                with_output setting team duration sub_task item output
                  (with_queue setting team r.1 run)),
          )
        ])
        marked

  -- The run after the output of an item's agent, before other sub-tasks are queued.
  abbrev pub answered_run :
      (t duration : ℕ) → SubTask → AgentOutput → Office W → WorkItem → Run W → Run W
  answered_run t duration sub_task output office item run =
      with_output setting team duration sub_task item output (
        with_queue setting team
          (put (put run.office.queue item.id (started t item)) item.id
            (finished (now office.world) output (started t item)))
          (started_run t item office run))

  pub answered_run-Sound :
      (t duration : ℕ) (output : AgentOutput) (office : Office W) (run : Run W) (item : WorkItem)
      (sub_task : SubTask)
      → SoundRun run
      → InQueue run.office.queue run.mission item
      → is_runnable item ≡ true
      → get (by_id run.mission) item.sub_task_id ≡ some sub_task
      → (let run' = answered_run t duration sub_task output office item run in
          SoundRun run'
          × (suc (total_work run'.office.queue run'.mission)
              ≤ total_work run.office.queue run.mission))
  unfolding total_work
  answered_run-Sound t duration output office run item sub_task sound (there, backed) runnable
        known =
      let i1 = started t item in
      let i2 = finished (now office.world) output i1 in
      let q2 = put (put run.office.queue item.id i1) item.id i2 in
      let named : sub_task.id ≡ item.sub_task_id =
        by_id-id run.mission item.sub_task_id sub_task known in
      let (sound', less) =
        change_twice run.office.queue run.mission item i1 i2 sound there refl refl refl refl
          (rw runnable (omega arith)) in
      (
        result-IsSound q2 run.mission sub_task.id output sound'
            (subst (IsBacked run.mission) (sym named) backed),
        less,
      )
