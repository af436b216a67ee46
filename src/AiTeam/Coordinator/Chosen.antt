-- ===== src/AiTeam/Coordinator/Chosen.antt =====
-- What is known of the item that the coordinator takes next.
use tmis.Prelude.{
  String, ◌≡◌, sym, ap, ◌∙◌, inl, inr, true, some, List, [], ◌∷◌, eq_iff, Bool-cases, Option-cases,
  ◌==◌, nat_eq, string_eq, key_eq, Every, Every-keep, some_injective,
}
use tmis.Prelude.Dict.{Dict, get, put, get-put}
use tmis.Prelude.Sort.{Every-sort}
use tmis.AiTeam.Coordinator.{next_runnable_item}
use tmis.AiTeam.Mission.{Mission, Run, items_of, sub_tasks_by_id}
use tmis.AiTeam.Coordinator.Sound.{by_id, IsBacked}
use tmis.AiTeam.Coordinator.Queueing.{SoundRun}
use tmis.AiTeam.WorkQueue.{WorkItem, WorkQueue, is_runnable, runs_first, head_item}
use tmis.AiTeam.Planner.{SubTask, MissionPlan}

Every-head :
    (P : WorkItem → Type 0) (items : List WorkItem) (item : WorkItem)
    → Every P items
    → head_item items ≡ some item
    → P item
Every-head P [] item h e = absurd (cc)
Every-head P (i ∷ items) item h e = let same : i ≡ item = some_injective e in rw (← same) h.0

-- The item stands in the queue, and its sub-task's dependencies have their results.
abbrev pub InQueue : WorkQueue → Mission → WorkItem → Type 0
InQueue queue m item = (get queue item.id ≡ some item) × IsBacked m item.sub_task_id

items_of-InQueue :
    (queue : WorkQueue) (m : Mission) (ids : List String)
    → ((k : String) (i : WorkItem) → get queue k ≡ some i → i.id ≡ k)
    → Every (λ j. (i : WorkItem) → get queue j ≡ some i → IsBacked m i.sub_task_id) ids
    → Every (InQueue queue m) (items_of queue ids)
unfolding items_of
items_of-InQueue queue m [] keyed h = tt
items_of-InQueue queue m (j ∷ ids) keyed h =
    let rest = items_of-InQueue queue m ids keyed h.1 in
    elim (Option-cases (get queue j)) [
      | inl no_item ↦ rw (no_item, items_of) rest
      | inr (x, there) ↦
          rw (there, items_of) ((ap (get queue) (keyed j x there) ∙ there, h.0 x there), rest)
    ]

-- The next item has what all items of the mission have, and can be run.
pub next_runnable_item-Every :
    {W : Type 0} (P : WorkItem → Type 0) (run : Run W) (item : WorkItem)
    → Every P (items_of run.office.queue run.mission.work_item_ids)
    → next_runnable_item run ≡ some item
    → P item × (is_runnable item ≡ true)
unfolding next_runnable_item
next_runnable_item-Every P run item h e =
    Every-head (λ i. P i × (is_runnable i ≡ true)) _ item
      (Every-sort runs_first (λ i. P i × (is_runnable i ≡ true)) _
        (Every-keep P is_runnable (items_of run.office.queue run.mission.work_item_ids) h))
      e

pub next_runnable_item-InQueue :
    {W : Type 0} (run : Run W) (item : WorkItem)
    → SoundRun run
    → next_runnable_item run ≡ some item
    → InQueue run.office.queue run.mission item × (is_runnable item ≡ true)
next_runnable_item-InQueue run item sound e =
    next_runnable_item-Every (InQueue run.office.queue run.mission) run item
      (items_of-InQueue run.office.queue run.mission run.mission.work_item_ids sound.keyed
        sound.items_backed)
      e

sub_tasks_by_id-id :
    (known : Dict String SubTask) (ts : MissionPlan)
    → ((x : String) (t : SubTask) → get known x ≡ some t → t.id ≡ x)
    → (x : String) (t : SubTask) → get (sub_tasks_by_id known ts) x ≡ some t
    → t.id ≡ x
unfolding sub_tasks_by_id
sub_tasks_by_id-id known [] h x t e = h x t e
sub_tasks_by_id-id known (u ∷ ts) h x t e =
    sub_tasks_by_id-id (put known u.id u) ts
      (λ y v found. elim (Bool-cases (u.id == y)) [
        | inl hit ↦
            let same : u ≡ v = some_injective (rw (get-put, hit) at found) in
            ap (λ (w : SubTask). w.id) (sym same) ∙ (eq_iff u.id y).0 hit
        | inr miss ↦ h y v (rw (get-put, miss) at found)
      ])
      x t e

-- The sub-tasks of a mission stand under their own identifiers.
pub by_id-id : (m : Mission) (x : String) (t : SubTask) → get (by_id m) x ≡ some t → t.id ≡ x
unfolding get
by_id-id m x t e = sub_tasks_by_id-id [] m.plan (λ y u found. absurd (cc)) x t e
