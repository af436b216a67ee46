-- ===== src/AiTeam/Coordinator/Queueing.antt =====
-- Queueing the ready sub-tasks keeps the mission sound and adds no work.
use tmis.Prelude.{
  ◌+◌, ◌-◌, ◌*◌, ◌≤◌, String, ◌≡◌, refl, ap, ◌∙◌, inl, inr, true, false, not, ◌||◌, none, some,
  List, [], ◌∷◌, arith, Bool-cases, nat_eq, string_eq, key_eq, length, Every, Every-map,
}
use tmis.Prelude.Dict.{get, worth, sum_of-values-put}
use tmis.Prelude.Int.{ℤ, pos}
use tmis.AiTeam.Planner.{SubTask, MissionPlan}
use tmis.AiTeam.Planner.Ordered.{has_id, Within}
use tmis.AiTeam.Delegation.{Team}
use tmis.AiTeam.WorkQueue.{WorkQueue}
use tmis.AiTeam.Coordinator.{new_item, enqueue_sub_task, enqueue_ready_from, enqueue_ready_subtasks}
use tmis.AiTeam.Mission.{Mission, Setting, Run, is_met, index_of}
use tmis.AiTeam.Coordinator.Sound.{by_id, IsSound, enqueue-IsSound}
use tmis.AiTeam.Coordinator.Budget.{item_work, queue_work, queued, unqueued, total_work, new-queued}

-- The identifiers that `uuid.uuid4` gives are new.
abbrev pub IsFresh : {W : Type 0} → Setting W → Type 0
IsFresh setting = (queue : WorkQueue) → get queue (setting.new_id queue) ≡ none

abbrev pub SoundRun : {W : Type 0} → Run W → Type 0
SoundRun run = IsSound run.office.queue run.mission

abbrev pub queued_of : {W : Type 0} → Run W → List String
queued_of run = queued run.office.queue run.mission.work_item_ids

module _ {W : Type 0} (setting : Setting W) (fresh : IsFresh setting) (team : Team) where
  -- Queueing one sub-task: the run is sound, the sub-task is queued, and there are four more units
  -- of work in the queue.
  record Queued (run run' : Run W) (t : SubTask) : Type 0 where
    sound : SoundRun run'
    within : Within (queued_of run) (queued_of run')
    self : has_id t.id (queued_of run') ≡ true
    work : queue_work run'.office.queue ≡ queue_work run.office.queue + 4
    mission : run'.mission ≡ record run.mission { work_item_ids = run'.mission.work_item_ids }

  enqueue_sub_task-Queued :
      (priority : ℤ) (t : SubTask) (run : Run W)
      → SoundRun run
      → get (by_id run.mission) t.id ≡ some t
      → is_met run.mission t ≡ true
      → Queued run (enqueue_sub_task setting team priority t run) t
  unfolding enqueue_sub_task
  enqueue_sub_task-Queued priority t run sound known met =
      let item = new_item setting team priority t run in
      let new_one = fresh run.office.queue in
      let (within, self) =
        new-queued run.office.queue item.id item run.mission.work_item_ids new_one in
      let sums = sum_of-values-put item_work run.office.queue item.id item in
      let gone : worth item_work (get run.office.queue item.id) ≡ 0 = rw new_one refl in
      record {
        sound = enqueue-IsSound run.office.queue run.mission item sound (t, known, met);
        within = within;
        self = self;
        work = omega (arith, sums, gone);
        mission = refl;
      }

  -- What the loop over the sub-tasks `ts` keeps and reaches.
  record Filled (enqueued : List String) (ts : MissionPlan) (run run' : Run W) : Type 0 where
    sound : SoundRun run'
    within : Within (queued_of run) (queued_of run')
    mission : run'.mission ≡ record run.mission { work_item_ids = run'.mission.work_item_ids }
    queues_met :
        Every
          (λ (t : SubTask). is_met run.mission t ≡ true → has_id t.id (queued_of run') ≡ true)
          ts
    work :
        (E : List String)
        → Within (queued_of run') E
        → queue_work run'.office.queue + 4 * unqueued E ts
          ≤ queue_work run.office.queue + 4 * unqueued enqueued ts

  enqueue_ready_from-Filled :
      (enqueued : List String) (ts : MissionPlan) (run : Run W)
      → SoundRun run
      → Every (λ (t : SubTask). get (by_id run.mission) t.id ≡ some t) ts
      → Within enqueued (queued_of run)
      → Filled enqueued ts run (enqueue_ready_from setting team enqueued ts run)
  unfolding enqueue_ready_from
  enqueue_ready_from-Filled enqueued [] run sound known old = record {
    sound = sound;
    within = λ x e. e;
    mission = refl;
    queues_met = tt;
    work = λ E within. omega arith;
  }
  enqueue_ready_from-Filled enqueued (t ∷ ts) run sound known old =
      elim (Bool-cases (has_id t.id enqueued || not (is_met run.mission t))) [
        | inl skipped ↦
            let rest = enqueue_ready_from-Filled enqueued ts run sound known.1 old in
            rw skipped (record {
              sound = rest.sound;
              within = rest.within;
              mission = rest.mission;
              queues_met = (
                λ met. let here = old t.id in let there = rest.within t.id in ground arith,
                rest.queues_met,
              );
              work = λ E within.
                  let less = rest.work E within in
                  let here = old t.id in
                  let there = rest.within t.id in let then_in = within t.id in ground arith;
            })
        | inr ready ↦
            let priority = pos (length run.mission.plan - index_of t.id run.mission.plan) in
            let one = enqueue_sub_task-Queued priority t run sound known.0 (ground arith) in
            let run1 = enqueue_sub_task setting team priority t run in
            let same_plan : run1.mission.plan ≡ run.mission.plan =
              ap (λ (m : Mission). m.plan) one.mission in
            let same_results : run1.mission.results ≡ run.mission.results =
              ap (λ (m : Mission). m.results) one.mission in
            let rest =
              enqueue_ready_from-Filled enqueued ts run1 one.sound (rw same_plan known.1)
                (λ x e. one.within x (old x e)) in
            let last_ids =
              (enqueue_ready_from setting team enqueued ts run1).mission.work_item_ids in
            rw ready (record {
              sound = rest.sound;
              within = λ x e. rest.within x (one.within x e);
              mission =
                  rest.mission
                  ∙ ap (λ (m : Mission). record m { work_item_ids = last_ids }) one.mission;
              queues_met = (
                λ met. rest.within t.id one.self,
                Every-map _ _ ts (λ u h met. h (rw same_results met)) rest.queues_met,
              );
              work = λ E within.
                  let less = rest.work E within in
                  let more = one.work in
                  let there = within t.id (rest.within t.id one.self) in
                  let fresh_one : has_id t.id enqueued ≡ false = ground arith in
                  rw (there, fresh_one) (omega (arith, less, more));
            })
      ]

  -- What queueing the ready sub-tasks keeps.
  pub record Requeued (run run' : Run W) : Type 0 where
    pub sound : SoundRun run'
    pub no_more :
        total_work run'.office.queue run'.mission ≤ total_work run.office.queue run.mission
    pub within : Within (queued_of run) (queued_of run')
    pub queues_met :
        Every
          (λ (t : SubTask). is_met run.mission t ≡ true → has_id t.id (queued_of run') ≡ true)
          run.mission.plan
    pub mission : run'.mission ≡ record run.mission { work_item_ids = run'.mission.work_item_ids }

  pub enqueue_ready_subtasks-Requeued :
      (run : Run W) → SoundRun run → Requeued run (enqueue_ready_subtasks setting team run)
  unfolding enqueue_ready_subtasks total_work
  enqueue_ready_subtasks-Requeued run sound =
      let filled =
        enqueue_ready_from-Filled (queued_of run) run.mission.plan run sound sound.indexed
          (λ x e. e) in
      let run' = enqueue_ready_from setting team (queued_of run) run.mission.plan run in
      let plan : run'.mission.plan ≡ run.mission.plan =
        ap (λ (m : Mission). m.plan) filled.mission in
      let less = filled.work (queued_of run') (λ x e. e) in
      record {
        sound = filled.sound;
        no_more = rw plan less;
        within = filled.within;
        queues_met = filled.queues_met;
        mission = filled.mission;
      }
