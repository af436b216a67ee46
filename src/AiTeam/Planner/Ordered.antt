-- ===== src/AiTeam/Planner/Ordered.antt =====
-- The plan lists every sub-task after those that it depends on.
use tmis.Prelude.{
  ℕ, suc, String, ◌≡◌, refl, inl, inr, Bool, true, not, ◌&&◌, Option, none, some, List, [], ◌∷◌,
  arith, eq_iff, Bool-cases, Option-cases, ◌==◌, nat_eq, string_eq, key_eq, length, any, Every,
  Every-map,
}
use tmis.Prelude.Dict.{test_refl}
use tmis.AiTeam.Capabilities.{LegalDomain, MissionStep, template_for, domain_expert_role}
use tmis.AiTeam.Planner.{
  SubTask, MissionPlan, opt_list, chain_from, rewire, rewired, splice_after, expert_task, decompose,
}

abbrev pub has_id : String → List String → Bool
has_id x ids = any (λ i. i == x) ids

-- Each sub-task's dependencies are among the identifiers that stand before it.
abbrev pub IsOrdered : List String → MissionPlan → Type 0
IsOrdered seen [] = Unit
IsOrdered seen (t ∷ ts) =
    Every (λ d. has_id d seen ≡ true) t.depends_on × IsOrdered (t.id ∷ seen) ts

abbrev pub Within : List String → List String → Type 0
Within xs ys = (x : String) → has_id x xs ≡ true → has_id x ys ≡ true

rewire-Within :
    (after_id new_id : String) (seen seen' deps : List String)
    → Within seen seen'
    → has_id new_id seen' ≡ true
    → Every (λ d. has_id d seen ≡ true) deps
    → Every (λ d. has_id d seen' ≡ true) (rewire after_id new_id deps)
rewire-Within after_id new_id seen seen' [] within new h = tt
rewire-Within after_id new_id seen seen' (d ∷ deps) within new h =
    let rest = rewire-Within after_id new_id seen seen' deps within new h.1 in
    elim (Bool-cases (d == after_id)) [
      | inl same ↦ rw same (new, rest)
      | inr other ↦ rw other (within d h.0, rest)
    ]

has_id_self : (x : String) (seen : List String) → has_id x (x ∷ seen) ≡ true
has_id_self x seen = rw (test_refl x) refl

any_dep :
    (after_id : String) (seen deps : List String)
    → any (λ dep. dep == after_id) deps ≡ true
    → Every (λ d. has_id d seen ≡ true) deps
    → has_id after_id seen ≡ true
any_dep after_id seen [] e h = absurd (cc)
any_dep after_id seen (d ∷ deps) e h = elim (Bool-cases (d == after_id)) [
  | inl same ↦ let eq : d ≡ after_id = (eq_iff d after_id).0 same in rw eq at h.0
  | inr other ↦ any_dep after_id seen deps (rw other at e) h.1
]

Every-Within :
    (seen seen' deps : List String)
    → Within seen seen'
    → Every (λ d. has_id d seen ≡ true) deps
    → Every (λ d. has_id d seen' ≡ true) deps
Every-Within seen seen' deps within h = Every-map _ _ deps within h

-- Each kind of sub-task that the splice puts out, with its dependencies.
rewired_lem :
    (after_id : String) (new_task t : SubTask) (seen seen' : List String)
    → Within seen seen'
    → (has_id after_id seen ≡ true → has_id new_task.id seen' ≡ true)
    → Every (λ d. has_id d seen ≡ true) t.depends_on
    → Every (λ d. has_id d seen' ≡ true) (rewired after_id new_task t).depends_on
      × ((rewired after_id new_task t).id ≡ t.id)
unfolding rewired
rewired_lem after_id new_task t seen seen' within new h =
    elim (Bool-cases (any (λ dep. dep == after_id) t.depends_on && not (t.id == new_task.id))) [
      | inr plain_one ↦
          rw (plain_one, rewired) (Every-Within seen seen' t.depends_on within h, refl)
      | inl hit ↦
          let dep : any (λ dep. dep == after_id) t.depends_on ≡ true = ground arith in
          rw (hit, rewired)
            (
              rewire-Within after_id new_task.id seen seen' t.depends_on within
                  (new (any_dep after_id seen t.depends_on dep h)) h,
              refl,
            )
    ]

splice_after-IsOrdered :
    (after_id : String) (new_task : SubTask) (ts : MissionPlan) (seen seen' : List String)
    → new_task.depends_on ≡ after_id ∷ []
    → Within seen seen'
    → (has_id after_id seen ≡ true → has_id new_task.id seen' ≡ true)
    → IsOrdered seen ts
    → IsOrdered seen' (splice_after after_id new_task ts)
unfolding splice_after
splice_after-IsOrdered after_id new_task [] seen seen' deps within new h = tt
splice_after-IsOrdered after_id new_task (t ∷ ts) seen seen' deps within new h =
    let (met, named) = rewired_lem after_id new_task t seen seen' within new h.0 in
    elim (Bool-cases (t.id == after_id)) [
      | inl at ↦
          rw (at, named, deps)
            (
              met,
              (
                (rw at refl, tt),
                splice_after-IsOrdered after_id new_task ts (t.id ∷ seen)
                    (new_task.id ∷ t.id ∷ seen') deps (λ x e. let more = within x in ground arith)
                    (λ _. has_id_self new_task.id (t.id ∷ seen')) h.1,
              ),
            )
      | inr other ↦
          rw (other, named)
            (
              met,
              splice_after-IsOrdered after_id new_task ts (t.id ∷ seen) (t.id ∷ seen') deps
                  (λ x e. let more = within x in ground arith)
                  (λ e. let more = new (ground arith) in ground arith) h.1,
            )
    ]

opt_list-known :
    (x : String) (seen : List String)
    → has_id x seen ≡ true
    → Every (λ d. has_id d seen ≡ true) (opt_list (some x))
opt_list-known x seen e = elim (Bool-cases (x == "")) [
  | inl empty ↦ rw empty tt
  | inr other ↦ rw other (e, tt)
]

chain_from-IsOrdered :
    (ids : ℕ → String) (n : ℕ) (previous last_research : Option String) (steps : List MissionStep)
    (seen : List String)
    → Every (λ d. has_id d seen ≡ true) (opt_list previous)
    → IsOrdered seen (chain_from ids n previous last_research steps).0
unfolding chain_from
chain_from-IsOrdered ids n previous last_research [] seen h = tt
chain_from-IsOrdered ids n previous last_research ((k, role) ∷ steps) seen h = (
  h,
  chain_from-IsOrdered ids (suc n) (some (ids n)) _ steps (ids n ∷ seen)
      (opt_list-known (ids n) (ids n ∷ seen) (has_id_self (ids n) seen)),
)

-- Whatever the case type and the domain, every sub-task of a plan stands after the sub-tasks that
-- it depends on, also where an expert's sub-task has been put in.
pub decompose-IsOrdered :
    (ids : ℕ → String) (domain : LegalDomain) (case_type : String)
    → IsOrdered [] (decompose ids domain case_type)
unfolding decompose
decompose-IsOrdered ids domain case_type =
    let steps = template_for case_type in
    let plan = (chain_from ids 0 none none steps).0 in
    let ordered : IsOrdered [] plan = chain_from-IsOrdered ids 0 none none steps [] tt in
    elim (Option-cases (domain_expert_role domain)) [
      | inl no_one ↦ rw (no_one, decompose) ordered
      | inr (role, expert) ↦ elim (Option-cases (chain_from ids 0 none none steps).1) [
        | inl no_research ↦ rw (decompose, expert, no_research) ordered
        | inr (after_id, research) ↦
            rw (decompose, expert, research)
              (splice_after-IsOrdered after_id
                (expert_task (ids (length steps)) role domain after_id) plan [] [] refl (λ x e. e)
                (λ e. absurd (cc)) ordered)
      ]
    ]
