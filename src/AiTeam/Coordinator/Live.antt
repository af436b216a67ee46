-- ===== src/AiTeam/Coordinator/Live.antt =====
-- Missions whose agents all answer: every item of such a mission can be run or has its result.
use tmis.Prelude.{
  ◌-◌, String, ◌≡◌, refl, sym, ap, ◌∙◌, subst, inl, inr, true, not, ◌||◌, none, some, List, [], ◌∷◌,
  arith, eq_iff, Bool-cases, ◌==◌, nat_eq, string_eq, key_eq, length, Every, Every-append,
  some_injective, Every-map,
}
use tmis.Prelude.Dict.{get, put, test_refl, get-put, get-put_self}
use tmis.Prelude.Distinct.{Distinct, Distinct-put}
use tmis.Prelude.Python.{ok}
use tmis.Prelude.Int.{ℤ, pos}
use tmis.AiTeam.Coordinator.Sound.{has_result-put}
use tmis.AiTeam.Agents.{AgentInput, AgentOutput, Agent}
use tmis.AiTeam.Planner.{SubTask, MissionPlan}
use tmis.AiTeam.Planner.Ordered.{has_id}
use tmis.AiTeam.Delegation.{Team, matching_agent, assign_agent}
use tmis.AiTeam.WorkQueue.{WorkItem, WorkQueue, enqueue_item, is_runnable}
use tmis.AiTeam.Coordinator.{new_item, enqueue_sub_task, enqueue_ready_from, find_agent}
use tmis.AiTeam.Mission.{Mission, Setting, Run, has_result, is_met, index_of, or_empty}
use tmis.AiTeam.Coordinator.Queueing.{IsFresh}

module _ {W : Type 0} (setting : Setting W) (team : Team) where
  abbrev pub IsAnswering : Agent W → Type 0
  IsAnswering agent = (input : AgentInput) (w : W) → (o : AgentOutput) × ((agent input w).0 ≡ ok o)

  -- The name is that of an agent that never raises.
  abbrev pub IsManned : String → Type 0
  IsManned agent_id = (a : Agent W) × (find_agent setting team agent_id ≡ some a) × IsAnswering a

  -- The team has such an agent for the sub-task.
  abbrev pub IsStaffed : SubTask → Type 0
  IsStaffed t = IsManned (or_empty (matching_agent setting.registry t.assigned_role team))

  abbrev pub IsWorked : WorkQueue → Mission → String → Type 0
  IsWorked queue m j =
      (i : WorkItem) × (get queue j ≡ some i)
      × IsManned i.agent_id
      × ((is_runnable i || has_result m.results i.sub_task_id) ≡ true)

  pub record IsLive (queue : WorkQueue) (m : Mission) : Type 0 where
    pub worked : Every (IsWorked queue m) m.work_item_ids
    pub distinct : Distinct m.results

  -- A new item keeps the mission so.
  pub enqueue_sub_task-IsLive :
      (priority : ℤ) (t : SubTask) (run : Run W)
      → IsFresh setting
      → IsStaffed t
      → IsLive run.office.queue run.mission
      → (let run' = enqueue_sub_task setting team priority t run in
          IsLive run'.office.queue run'.mission)
  unfolding enqueue_sub_task enqueue_item assign_agent
  enqueue_sub_task-IsLive priority t run fresh staffed live =
      let item = new_item setting team priority t run in
      let queue = run.office.queue in
      let m = run.mission in
      let old : (j : String) → IsWorked queue m j → IsWorked (put queue item.id item) m j =
        λ j (i, there, manned, fine). elim (Bool-cases (item.id == j)) [
          | inl hit ↦
              let at : item.id ≡ j = (eq_iff item.id j).0 hit in
              let gone : get queue j ≡ none = rw (← at) (fresh queue) in absurd (cc)
          | inr miss ↦ (i, rw (get-put, miss) there, manned, fine)
        ] in
      record {
        worked =
            Every-append _ m.work_item_ids (item.id ∷ [])
              (Every-map _ _ m.work_item_ids old live.worked)
              ((item, get-put_self queue item.id item, staffed, refl), tt);
        distinct = live.distinct;
      }

  pub enqueue_ready_from-IsLive :
      (enqueued : List String) (ts : MissionPlan) (run : Run W)
      → IsFresh setting
      → Every IsStaffed ts
      → IsLive run.office.queue run.mission
      → (let run' = enqueue_ready_from setting team enqueued ts run in
          IsLive run'.office.queue run'.mission)
  unfolding enqueue_ready_from
  enqueue_ready_from-IsLive enqueued [] run fresh staffed live = live
  enqueue_ready_from-IsLive enqueued (t ∷ ts) run fresh staffed live =
      elim (Bool-cases (has_id t.id enqueued || not (is_met run.mission t))) [
        | inl skipped ↦ rw skipped (enqueue_ready_from-IsLive enqueued ts run fresh staffed.1 live)
        | inr ready ↦
            let priority = pos (length run.mission.plan - index_of t.id run.mission.plan) in
            rw ready (
              enqueue_ready_from-IsLive enqueued ts (enqueue_sub_task setting team priority t run)
                fresh staffed.1 (enqueue_sub_task-IsLive priority t run fresh staffed.0 live))
      ]

  -- What is done to the item whose agent answers keeps the mission so.
  pub finish-IsLive :
      (queue : WorkQueue) (m : Mission) (item i1 i2 : WorkItem) (o : AgentOutput)
      → get queue item.id ≡ some item
      → i2.agent_id ≡ item.agent_id
      → i2.sub_task_id ≡ item.sub_task_id
      → IsLive queue m
      → IsLive
          (put (put queue item.id i1) item.id i2)
          (record m { results = put m.results item.sub_task_id o })
  finish-IsLive queue m item i1 i2 o there same_agent same_task live = record {
    worked = Every-map _ _ m.work_item_ids one live.worked;
    distinct = Distinct-put m.results item.sub_task_id o live.distinct;
  }
    where
      m' : Mission
      m' = record m { results = put m.results item.sub_task_id o }

      queue' : WorkQueue
      queue' = put (put queue item.id i1) item.id i2

      one : (j : String) → IsWorked queue m j → IsWorked queue' m' j
      one j (i, found, manned, fine) = elim (Bool-cases (item.id == j)) [
        | inl hit ↦
            let at : item.id ≡ j = (eq_iff item.id j).0 hit in
            let same : item ≡ i = some_injective (sym (rw (← at) there) ∙ found) in
            let agent : i.agent_id ≡ i2.agent_id =
              ap (λ (x : WorkItem). x.agent_id) (sym same) ∙ sym same_agent in
            let result : has_result m'.results i2.sub_task_id ≡ true =
              rw (same_task, has_result-put) (rw (test_refl item.sub_task_id) refl) in
            (i2, rw (get-put, hit) refl, subst IsManned agent manned, ground (arith, result))
        | inr miss ↦
            let here : get queue' j ≡ get queue j = rw (get-put, miss) (rw (get-put, miss) refl) in
            let more = has_result-put m.results item.sub_task_id i.sub_task_id o in
            (i, here ∙ found, manned, ground (arith, fine, more))
      ]
