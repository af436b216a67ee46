-- ===== src/AiTeam/Planner.antt =====
-- The plan of a mission: ai_team/planner (schemas.py and engine.py).
pub mod Ordered
pub mod Apart
pub mod Samples
use tmis.Prelude.{
  ℕ, suc, String, Bool, true, false, not, ◌&&◌, Option, none, some, List, [], ◌∷◌, if◌then◌else◌,
  ◌==◌, nat_eq, string_eq, key_eq, length, any, last,
}
use tmis.Prelude.Python.{append}
use tmis.AiTeam.Capabilities.{
  LegalDomain, TaskType, document_analysis, legal_research, jurisprudence_research, risk_analysis,
  reasoning, drafting, verification, quality_control, AgentRole, domain_value, task_value,
  MissionStep, template_for, domain_expert_role,
}

pub record SubTask : Type 0 where
  pub id : String
  pub task_type : TaskType
  pub assigned_role : AgentRole
  pub description : String
  pub depends_on : List String

-- `MissionPlan`
abbrev pub MissionPlan : Type 0
MissionPlan = List SubTask

-- `_DESCRIPTIONS.get(task_type, task_type.value)`
abbrev pub description_of : TaskType → String
description_of document_analysis = "Analyser les documents du dossier."
description_of legal_research = "Rechercher les textes juridiques applicables."
description_of jurisprudence_research = "Rechercher la jurisprudence pertinente."
description_of reasoning = "Construire le raisonnement juridique."
description_of drafting = "Rédiger le document à partir du raisonnement établi."
description_of verification = "Vérifier la fiabilité et la cohérence du contenu."
description_of quality_control = "Contrôler la qualité finale du livrable."
description_of other = task_value other

abbrev pub is_research : TaskType → Bool
is_research jurisprudence_research = true
is_research legal_research = true
is_research _ = false

-- `(previous_id,) if previous_id else ()`
abbrev pub opt_list : Option String → List String
opt_list none = []
opt_list (some x) = if x == "" then [] else x ∷ []

-- The first loop of `decompose`: `ids n` is the identifier that the `n`-th call of `new_subtask_id`
-- gives, and the result is the chain with the identifier of its last research step.
unfoldable pub chain_from :
    (ids : ℕ → String)
    → ℕ
    → (previous last_research : Option String) → List MissionStep
    → MissionPlan × Option String
chain_from ids n previous last_research [] = ([], last_research)
chain_from ids n previous last_research ((task_type, role) ∷ steps) =
    let sub_task : SubTask = record {
      id = ids n;
      task_type = task_type;
      assigned_role = role;
      description = description_of task_type;
      depends_on = opt_list previous;
    } in
    let (rest, last) =
      chain_from ids (suc n) (some (ids n))
        (if is_research task_type then some (ids n) else last_research) steps in
    (sub_task ∷ rest, last)

-- `tuple(new_sub_task.id if dep == after_id else dep for dep in sub_task.depends_on)`
abbrev pub rewire : String → String → List String → List String
rewire after_id new_id [] = []
rewire after_id new_id (dep ∷ deps) =
    (if dep == after_id then new_id else dep) ∷ rewire after_id new_id deps

unfoldable pub rewired : String → SubTask → SubTask → SubTask
rewired after_id new_sub_task sub_task =
    if any (λ dep. dep == after_id) sub_task.depends_on && not (sub_task.id == new_sub_task.id)
    then record sub_task { depends_on = rewire after_id new_sub_task.id sub_task.depends_on }
    else sub_task

unfoldable pub splice_after : String → SubTask → MissionPlan → MissionPlan
unfolding rewired
splice_after after_id new_sub_task [] = []
splice_after after_id new_sub_task (sub_task ∷ sub_tasks) =
    let rest = splice_after after_id new_sub_task sub_tasks in
    rewired after_id new_sub_task sub_task
    ∷ (if sub_task.id == after_id then new_sub_task ∷ rest else rest)

-- The sub-task of the domain's expert.
abbrev pub expert_task : String → AgentRole → LegalDomain → String → SubTask
expert_task id role domain after_id = record {
  id = id;
  task_type = risk_analysis;
  assigned_role = role;
  description =
      append "Analyser les risques spécifiques au domaine " (append (domain_value domain) ".");
  depends_on = after_id ∷ [];
}

unfoldable pub decompose : (ids : ℕ → String) → LegalDomain → String → MissionPlan
unfolding chain_from splice_after template_for domain_expert_role
decompose ids domain case_type =
    let steps = template_for case_type in
    let (sub_tasks, last_research) = chain_from ids 0 none none steps in
    elim (domain_expert_role domain) [
      | none ↦ sub_tasks
      | some role ↦ elim last_research [
        | none ↦ sub_tasks
        | some after_id ↦
            splice_after after_id (expert_task (ids (length steps)) role domain after_id) sub_tasks
      ]
    ]
