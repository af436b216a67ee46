-- ===== src/AiTeam/Coordinator/Sound.antt =====
-- What holds of a mission between two rounds: its items stand under their own identifiers, and a
-- sub-task has an item or a result only once its dependencies have theirs.
use tmis.Prelude.{
  String, ◌≡◌, refl, sym, ap, ◌∙◌, subst, inl, inr, true, ◌||◌, some, List, [], ◌∷◌, ◌++◌, arith,
  eq_iff, Bool-cases, ◌==◌, nat_eq, string_eq, key_eq, all, Every, Every-append, some_injective,
  Every-map,
}
use tmis.Prelude.Dict.{Dict, get, put, get-put, get-put_self}
use tmis.AiTeam.Agents.{AgentOutput}
use tmis.AiTeam.Planner.{SubTask}
use tmis.AiTeam.WorkQueue.{WorkItem, WorkQueue}
use tmis.AiTeam.Mission.{Mission, has_result, is_met, sub_tasks_by_id}

abbrev pub by_id : Mission → Dict String SubTask
by_id m = sub_tasks_by_id [] m.plan

-- The name is a sub-task's of the plan, and all that it depends on has a result.
abbrev pub IsBacked : Mission → String → Type 0
IsBacked m x = (t : SubTask) × (get (by_id m) x ≡ some t) × (is_met m t ≡ true)

pub record IsSound (queue : WorkQueue) (m : Mission) : Type 0 where
  pub keyed : (k : String) (i : WorkItem) → get queue k ≡ some i → i.id ≡ k
  pub items_backed :
      Every (λ j. (i : WorkItem) → get queue j ≡ some i → IsBacked m i.sub_task_id) m.work_item_ids
  pub results_backed : (x : String) → has_result m.results x ≡ true → IsBacked m x
  -- Sub-tasks of the plan do not share an identifier.
  pub indexed : Every (λ (t : SubTask). get (by_id m) t.id ≡ some t) m.plan

-- An item that is changed in the queue keeps its name and its sub-task.
pub change-IsSound :
    (queue : WorkQueue) (m : Mission) (k : String) (i i' : WorkItem)
    → IsSound queue m
    → get queue k ≡ some i
    → i'.id ≡ i.id
    → i'.sub_task_id ≡ i.sub_task_id
    → IsSound (put queue k i') m
change-IsSound queue m k i i' h found same_id same_task = record {
  keyed = λ j x e. elim (Bool-cases (k == j)) [
    | inl hit ↦
        let at : k ≡ j = (eq_iff k j).0 hit in
        let eq : i' ≡ x = some_injective (rw hit at (rw get-put at e)) in
        ap (λ (y : WorkItem). y.id) (sym eq) ∙ same_id ∙ h.keyed k i found ∙ at
    | inr miss ↦ h.keyed j x (rw miss at (rw get-put at e))
  ];
  items_backed =
      Every-map _ _ m.work_item_ids
        (λ j backed x e. elim (Bool-cases (k == j)) [
          | inl hit ↦
              let at : k ≡ j = (eq_iff k j).0 hit in
              let eq : i' ≡ x = some_injective (rw hit at (rw get-put at e)) in
              let old = backed i (rw (← at) found) in
              subst (IsBacked m) (sym same_task ∙ ap (λ (y : WorkItem). y.sub_task_id) eq) old
          | inr miss ↦ backed x (rw miss at (rw get-put at e))
        ])
        h.items_backed;
  results_backed = h.results_backed;
  indexed = h.indexed;
}

-- A new item for a sub-task whose dependencies are met.
pub enqueue-IsSound :
    (queue : WorkQueue) (m : Mission) (i : WorkItem)
    → IsSound queue m
    → IsBacked m i.sub_task_id
    → IsSound (put queue i.id i) (record m { work_item_ids = m.work_item_ids ++ i.id ∷ [] })
enqueue-IsSound queue m i h backed = record {
  keyed = λ j x e. elim (Bool-cases (i.id == j)) [
    | inl hit ↦
        let eq : i ≡ x = some_injective (rw hit at (rw get-put at e)) in
        ap (λ (y : WorkItem). y.id) (sym eq) ∙ (eq_iff i.id j).0 hit
    | inr miss ↦ h.keyed j x (rw miss at (rw get-put at e))
  ];
  items_backed =
      Every-append _ m.work_item_ids (i.id ∷ [])
        (Every-map _ _ m.work_item_ids (λ j old x e. one j old x e) h.items_backed)
        (
          λ x e.
              let eq : i ≡ x = some_injective (rw get-put_self at e) in
              subst (λ (y : WorkItem). IsBacked m y.sub_task_id) eq backed,
          tt,
        );
  results_backed = h.results_backed;
  indexed = h.indexed;
}
  where
    one :
        (j : String)
        → ((x : WorkItem) → get queue j ≡ some x → IsBacked m x.sub_task_id)
        → (x : WorkItem) → get (put queue i.id i) j ≡ some x
        → IsBacked m x.sub_task_id
    one j old x e = elim (Bool-cases (i.id == j)) [
      | inl hit ↦
          let eq : i ≡ x = some_injective (rw hit at (rw get-put at e)) in
          subst (λ (y : WorkItem). IsBacked m y.sub_task_id) eq backed
      | inr miss ↦ old x (rw miss at (rw get-put at e))
    ]

pub has_result-put :
    (results : Dict String AgentOutput) (x y : String) (o : AgentOutput)
    → has_result (put results x o) y ≡ (x == y || has_result results y)
has_result-put results x y o = ground (arith, get-put results x y o)

is_met-put :
    (m : Mission) (x : String) (o : AgentOutput) (t : SubTask)
    → is_met m t ≡ true
    → is_met (record m { results = put m.results x o }) t ≡ true
is_met-put m x o t h = grows t.depends_on h
  where
    grows :
        (deps : List String)
        → all (has_result m.results) deps ≡ true
        → all (has_result (put m.results x o)) deps ≡ true
    grows [] e = refl
    grows (d ∷ deps) e = ground (arith, grows deps, has_result-put m.results x d o)

-- A result for a sub-task whose dependencies are met.
pub result-IsSound :
    (queue : WorkQueue) (m : Mission) (x : String) (o : AgentOutput)
    → IsSound queue m
    → IsBacked m x
    → IsSound queue (record m { results = put m.results x o })
result-IsSound queue m x o h backed = record {
  keyed = h.keyed;
  items_backed =
      Every-map _ _ m.work_item_ids (λ j old i e. grow i.sub_task_id (old i e)) h.items_backed;
  results_backed = λ y e. elim (Bool-cases (x == y)) [
    | inl hit ↦ let at : x ≡ y = (eq_iff x y).0 hit in subst (IsBacked m') at (grow x backed)
    | inr miss ↦ grow y (h.results_backed y (rw (has_result-put, miss) at e))
  ];
  indexed = h.indexed;
}
  where
    m' : Mission
    m' = record m { results = put m.results x o }

    grow : (y : String) → IsBacked m y → IsBacked m' y
    grow y (t, found, met) = (t, found, is_met-put m x o t met)
