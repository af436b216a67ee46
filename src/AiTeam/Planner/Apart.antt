-- ===== src/AiTeam/Planner/Apart.antt =====
-- The sub-tasks of a plan have different identifiers.
use tmis.Prelude.{
  ℕ, suc, ◌+◌, ◌≤◌, ◌<◌, String, ◌≡◌, refl, sym, ◌∙◌, inl, inr, true, false, not, ◌&&◌, false≢true,
  Option, none, some, List, [], ◌∷◌, arith, eq_iff, Bool-cases, Option-cases, ◌==◌, nat_eq,
  string_eq, key_eq, length, any, Every, Every-map,
}
use tmis.Prelude.Dict.{Dict, get, put, test_refl, get-put, get-put_self}
use tmis.AiTeam.Capabilities.{LegalDomain, MissionStep, template_for, domain_expert_role}
use tmis.AiTeam.Planner.{
  SubTask, MissionPlan, chain_from, rewired, splice_after, expert_task, decompose,
}
use tmis.AiTeam.Mission.{sub_tasks_by_id}
use tmis.AiTeam.Planner.Ordered.{has_id}

-- No identifier of the plan stands before it, and none comes twice.
abbrev pub IsApart : List String → MissionPlan → Type 0
IsApart seen [] = Unit
IsApart seen (t ∷ ts) = (has_id t.id seen ≡ false) × IsApart (t.id ∷ seen) ts

-- The identifiers that the planner draws are different.
abbrev pub IsInjective : (ℕ → String) → Type 0
IsInjective ids = (i j : ℕ) → ids i ≡ ids j → i ≡ j

abbrev IsDrawn : (ℕ → String) → ℕ → String → Type 0
IsDrawn ids n x = (k : ℕ) × (x ≡ ids k) × (k < n)

unequal_sym : (x y : String) → (x == y) ≡ false → (y == x) ≡ false
unequal_sym x y n = elim (Bool-cases (y == x)) [
  | inl hit ↦
      let eq : x ≡ y = sym ((eq_iff y x).0 hit) in absurd (false≢true (sym n ∙ (eq_iff x y).1 eq))
  | inr miss ↦ miss
]

rewired-id : (after_id : String) (new_task t : SubTask) → (rewired after_id new_task t).id ≡ t.id
unfolding rewired
rewired-id after_id new_task t =
    elim (Bool-cases (any (λ dep. dep == after_id) t.depends_on && not (t.id == new_task.id))) [
      | inl hit ↦ rw (rewired, hit) refl
      | inr miss ↦ rw (rewired, miss) refl
    ]

not_drawn :
    (ids : ℕ → String) (n : ℕ) (seen : List String)
    → IsInjective ids
    → Every (IsDrawn ids n) seen
    → has_id (ids n) seen ≡ false
not_drawn ids n [] inj h = refl
not_drawn ids n (x ∷ seen) inj ((k, same, less), h) = elim (Bool-cases (x == ids n)) [
  | inl hit ↦
      let at : x ≡ ids n = (eq_iff x (ids n)).0 hit in
      let eq : k ≡ n = inj k n (sym same ∙ at) in absurd (omega (arith, less, eq))
  | inr miss ↦ rw miss (not_drawn ids n seen inj h)
]

later :
    (ids : ℕ → String) (n : ℕ) (seen : List String)
    → Every (IsDrawn ids n) seen
    → Every (IsDrawn ids (suc n)) (ids n ∷ seen)
later ids n seen h = (
  (n, refl, omega arith),
  Every-map _ _ seen (λ x (k, same, less). (k, same, omega (arith, less))) h,
)

chain_from-IsApart :
    (ids : ℕ → String) (n : ℕ) (previous last_research : Option String) (steps : List MissionStep)
    (seen : List String)
    → IsInjective ids
    → Every (IsDrawn ids n) seen
    → IsApart seen (chain_from ids n previous last_research steps).0
unfolding chain_from
chain_from-IsApart ids n previous last_research [] seen inj h = tt
chain_from-IsApart ids n previous last_research ((k, role) ∷ steps) seen inj h = (
  not_drawn ids n seen inj h,
  chain_from-IsApart ids (suc n) (some (ids n)) _ steps (ids n ∷ seen) inj (later ids n seen h),
)

chain_from-other :
    (ids : ℕ → String) (n m : ℕ) (previous last_research : Option String) (steps : List MissionStep)
    → IsInjective ids
    → n + length steps ≤ m
    → Every
        (λ (t : SubTask). (t.id == ids m) ≡ false)
        (chain_from ids n previous last_research steps).0
unfolding chain_from
chain_from-other ids n m previous last_research [] inj less = tt
chain_from-other ids n m previous last_research ((k, role) ∷ steps) inj less = (
  elim (Bool-cases (ids n == ids m)) [
    | inl hit ↦
        let eq = inj n m ((eq_iff (ids n) (ids m)).0 hit) in absurd (omega (arith, less, eq))
    | inr miss ↦ miss
  ],
  chain_from-other ids (suc n) m (some (ids n)) _ steps inj (omega (arith, less)),
)

splice_after-IsApart :
    (after_id : String) (new_task : SubTask) (ts : MissionPlan) (seen seen' : List String)
    → ((x : String) → has_id x seen ≡ false → (x == new_task.id) ≡ false → has_id x seen' ≡ false)
    → (has_id after_id seen ≡ false → has_id new_task.id seen' ≡ false)
    → Every (λ (t : SubTask). (t.id == new_task.id) ≡ false) ts
    → IsApart seen ts
    → IsApart seen' (splice_after after_id new_task ts)
unfolding splice_after
splice_after-IsApart after_id new_task [] seen seen' within new others h = tt
splice_after-IsApart after_id new_task (t ∷ ts) seen seen' within new others h =
    let named = rewired-id after_id new_task t in
    let here : has_id t.id seen' ≡ false = within t.id h.0 others.0 in
    elim (Bool-cases (t.id == after_id)) [
      | inl at ↦
          let eq : t.id ≡ after_id = (eq_iff t.id after_id).0 at in
          let unseen : has_id new_task.id seen' ≡ false = new (rw (← eq) h.0) in
          rw (at, named)
            (
              here,
              (
                ground (arith, others.0, unseen),
                splice_after-IsApart after_id new_task ts (t.id ∷ seen) (new_task.id ∷ t.id ∷ seen')
                    (λ x e n.
                      let more = within x in let flip = unequal_sym x new_task.id n in ground arith)
                    (λ e. absurd (ground (arith, at, e))) others.1 h.1,
              ),
            )
      | inr other ↦
          rw (other, named)
            (
              here,
              splice_after-IsApart after_id new_task ts (t.id ∷ seen) (t.id ∷ seen')
                  (λ x e n. let more = within x in ground arith)
                  (λ e. let more = new (ground arith) in ground (arith, others.0)) others.1 h.1,
            )
    ]

-- Where the identifiers that are drawn are different, those of the plan are.
pub decompose-IsApart :
    (ids : ℕ → String) (domain : LegalDomain) (case_type : String)
    → IsInjective ids
    → IsApart [] (decompose ids domain case_type)
unfolding decompose
decompose-IsApart ids domain case_type inj =
    let steps = template_for case_type in
    let chain = chain_from ids 0 none none steps in
    let apart : IsApart [] chain.0 = chain_from-IsApart ids 0 none none steps [] inj tt in
    elim (Option-cases (domain_expert_role domain)) [
      | inl no_one ↦ rw (no_one, decompose) apart
      | inr (role, expert) ↦ elim (Option-cases chain.1) [
        | inl no_research ↦ rw (decompose, expert, no_research) apart
        | inr (after_id, research) ↦
            rw (decompose, expert, research)
              (splice_after-IsApart after_id (expert_task (ids (length steps)) role domain after_id)
                chain.0 [] [] (λ x e n. refl) (λ e. refl)
                (chain_from-other ids 0 (length steps) none none steps inj (omega arith)) apart)
      ]
    ]

seen_kept :
    (known : Dict String SubTask) (ts : MissionPlan) (seen : List String) (x : String)
    → IsApart seen ts
    → has_id x seen ≡ true
    → get (sub_tasks_by_id known ts) x ≡ get known x
unfolding sub_tasks_by_id
seen_kept known [] seen x apart e = refl
seen_kept known (t ∷ ts) seen x apart e =
    let rest = seen_kept (put known t.id t) ts (t.id ∷ seen) x apart.1 (ground arith) in
    elim (Bool-cases (t.id == x)) [
      | inl hit ↦
          let eq : t.id ≡ x = (eq_iff t.id x).0 hit in absurd (false≢true (sym apart.0 ∙ rw eq e))
      | inr miss ↦ rest ∙ rw (get-put, miss) refl
    ]

-- Every sub-task of such a plan is found under its identifier.
pub indexed_of_apart :
    (known : Dict String SubTask) (ts : MissionPlan) (seen : List String)
    → IsApart seen ts
    → Every (λ (t : SubTask). get (sub_tasks_by_id known ts) t.id ≡ some t) ts
unfolding sub_tasks_by_id
indexed_of_apart known [] seen apart = tt
indexed_of_apart known (t ∷ ts) seen apart = (
  seen_kept (put known t.id t) ts (t.id ∷ seen) t.id apart.1 (rw (test_refl t.id) refl)
      ∙ get-put_self known t.id t,
  indexed_of_apart (put known t.id t) ts (t.id ∷ seen) apart.1,
)
