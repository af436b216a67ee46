-- ===== src/AiTeam/Coordinator/Budget.antt =====
-- The work that is left in a mission, and what queueing its ready sub-tasks does to it.
use tmis.Prelude.{
  ℕ, suc, ◌+◌, ◌-◌, ◌*◌, ◌≤◌, String, ◌≡◌, refl, inl, inr, true, not, none, some, List, [], ◌∷◌,
  ◌++◌, arith, eq_iff, if◌then◌else◌, Bool-cases, Option-cases, ◌==◌, nat_eq, string_eq, key_eq,
  length, keep, sum_of,
}
use tmis.Prelude.Dict.{get, put, values, worth, test_refl, get-put, get-put_self, sum_of-values-put}
use tmis.AiTeam.Planner.{MissionPlan}
use tmis.AiTeam.Planner.Ordered.{has_id, Within}
use tmis.AiTeam.WorkQueue.{WorkItem, WorkQueue, is_runnable}
use tmis.AiTeam.Mission.{Mission, items_of, sub_task_ids}

-- The rounds that an item can still take, and one more for the item itself.
abbrev pub item_work : WorkItem → ℕ
item_work i = if is_runnable i then suc (i.max_attempts - i.attempts) else 0

abbrev pub queue_work : WorkQueue → ℕ
queue_work queue = sum_of item_work (values queue)

abbrev pub queued : WorkQueue → List String → List String
queued queue ids = sub_task_ids (items_of queue ids)

-- How many sub-tasks have no item yet.
abbrev pub unqueued : List String → MissionPlan → ℕ
unqueued enqueued plan = length (keep (λ t. not (has_id t.id enqueued)) plan)

-- A sub-task with no item counts as much as a new item, which has three attempts.
unfoldable pub total_work : WorkQueue → Mission → ℕ
unfolding items_of
total_work queue m = queue_work queue + 4 * unqueued (queued queue m.work_item_ids) m.plan

pub unqueued-le :
    (xs ys : List String) (plan : MissionPlan) → Within xs ys → unqueued ys plan ≤ unqueued xs plan
unqueued-le xs ys [] within = omega arith
unqueued-le xs ys (t ∷ plan) within =
    let rest = unqueued-le xs ys plan within in let here = within t.id in ground arith

-- An item that is changed keeps its place among the queued sub-tasks.
change-queued :
    (queue : WorkQueue) (k : String) (i i' : WorkItem) (ids : List String)
    → get queue k ≡ some i
    → i'.sub_task_id ≡ i.sub_task_id
    → queued (put queue k i') ids ≡ queued queue ids
unfolding items_of
change-queued queue k i i' [] found same = refl
change-queued queue k i i' (j ∷ ids) found same =
    let rest = change-queued queue k i i' ids found same in
    elim (Bool-cases (k == j)) [
      | inl hit ↦
          let at : k ≡ j = (eq_iff k j).0 hit in
          let there : get queue j ≡ some i = rw (← at) found in
          let here : get (put queue k i') j ≡ some i' = rw get-put (rw hit refl) in
          rw (here, items_of) (rw (there, items_of) (rw (same, rest) refl))
      | inr miss ↦
          let here : get (put queue k i') j ≡ get queue j = rw get-put (rw miss refl) in
          elim (Option-cases (get queue j)) [
            | inl no_item ↦ rw (here, items_of) (rw (no_item, items_of) rest)
            | inr (x, there) ↦ rw (here, items_of) (rw (there, items_of) (rw rest refl))
          ]
    ]

pub change-total_work :
    (queue : WorkQueue) (m : Mission) (k : String) (i i' : WorkItem)
    → get queue k ≡ some i
    → i'.sub_task_id ≡ i.sub_task_id
    → total_work (put queue k i') m + item_work i ≡ total_work queue m + item_work i'
unfolding total_work
change-total_work queue m k i i' found same =
    let sums = sum_of-values-put item_work queue k i' in
    let old : worth item_work (get queue k) ≡ item_work i = rw found refl in
    rw (change-queued queue k i i' m.work_item_ids found same) (omega (arith, sums, old))

-- A new item keeps the sub-tasks that were queued, and adds its own.
pub new-queued :
    (queue : WorkQueue) (k : String) (v : WorkItem) (ids : List String)
    → get queue k ≡ none
    → Within (queued queue ids) (queued (put queue k v) (ids ++ k ∷ []))
      × (has_id v.sub_task_id (queued (put queue k v) (ids ++ k ∷ [])) ≡ true)
unfolding items_of
new-queued queue k v [] fresh =
    let here = get-put_self queue k v in
    (λ x e. absurd (cc), rw (here, items_of) (rw (test_refl v.sub_task_id) refl))
new-queued queue k v (j ∷ ids) fresh =
    let (within, self) = new-queued queue k v ids fresh in
    elim (Bool-cases (k == j)) [
      | inl hit ↦
          let at : k ≡ j = (eq_iff k j).0 hit in
          let gone : get queue j ≡ none = rw (← at) fresh in
          let here : get (put queue k v) j ≡ some v = rw get-put (rw hit refl) in
          (
            λ x e.
                let more = within x (rw (gone, items_of) at e) in
                rw (here, items_of) (ground arith),
            rw (here, items_of) (rw (test_refl v.sub_task_id) refl),
          )
      | inr miss ↦
          let here : get (put queue k v) j ≡ get queue j = rw get-put (rw miss refl) in
          elim (Option-cases (get queue j)) [
            | inl no_item ↦ (
              λ x e.
                  rw (here, items_of)
                    (rw (no_item, items_of) (within x (rw (no_item, items_of) at e))),
              rw (here, items_of) (rw (no_item, items_of) self),
            )
            | inr (y, there) ↦ (
              λ x e.
                  let more = within x in
                  let e' = rw (there, items_of) at e in
                  rw (here, items_of) (rw (there, items_of) (ground arith)),
              rw (here, items_of) (rw (there, items_of) (ground arith)),
            )
          ]
    ]
