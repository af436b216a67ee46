-- ===== src/AiTeam/Mission.antt =====
-- What a mission is, and what the parts of its coordinator keep: ai_team/coordinator/schemas.py, the
-- constructor of engine.py, and the run metrics of ai_team/metrics.
use tmis.Prelude.{
  ℕ, suc, String, Bool, true, false, Option, none, some, List, [], ◌∷◌, map, if◌then◌else◌, ◌==◌,
  nat_eq, string_eq, key_eq, all,
}
use tmis.Prelude.Dict.{Dict, get, put}
use tmis.Prelude.Python.{Exception}
use tmis.AiTeam.Capabilities.{LegalDomain}
use tmis.AiTeam.Agents.{AgentOutput, Agent, AgentRegistry}
use tmis.AiTeam.Planner.{SubTask, MissionPlan}
use tmis.AiTeam.Delegation.{DelegationRecord}
use tmis.AiTeam.Context.{ContextTraceEntry}
use tmis.AiTeam.WorkQueue.{WorkItem, WorkQueue}

pub data MissionStatus : Type 0 where
  created running awaiting_human_review completed failed cancelled : MissionStatus

pub record Mission : Type 0 where
  pub id : String
  pub firm_id : String
  pub request_description : String
  pub domain : LegalDomain
  pub team_id : String
  pub plan : MissionPlan
  pub status : MissionStatus
  pub work_item_ids : List String
  pub results : Dict String AgentOutput
  pub synthesis : Option String
  pub created_at : ℕ
  pub completed_at : Option ℕ

-- `AgentRunMetric`
pub record AgentRun : Type 0 where
  pub mission_id : String
  pub sub_task_id : String
  pub agent_id : String
  pub duration : ℕ
  pub cost_usd : ℕ
  pub quality_score : ℕ
  pub recorded_at : ℕ

-- What the coordinator's parts keep, beside the world in which agents act.
pub record Office (W : Type 0) : Type 0 where
  pub queue : WorkQueue
  pub delegations : List DelegationRecord
  pub trace : List ContextTraceEntry
  pub runs : List AgentRun
  pub revisions : Dict String ℕ
  pub validations : Dict String ℕ
  pub world : W

-- `CoordinatorEngine`'s fixed parts: the registry, the agents, the text of an exception, the clock,
-- the duration of a call between two worlds, and the identifiers that `uuid.uuid4` gives.
pub record Setting (W : Type 0) : Type 0 where
  pub registry : AgentRegistry
  pub agents : Dict String (Agent W)
  pub str : Exception → String
  pub now : W → ℕ
  pub elapsed : W → W → ℕ
  pub task_id : W → String
  pub new_id : WorkQueue → String

pub record Run (W : Type 0) : Type 0 where
  pub mission : Mission
  pub context : Dict String String
  pub office : Office W

-- The items of the queue that the identifiers name.
unfoldable pub items_of : WorkQueue → List String → List WorkItem
items_of queue [] = []
items_of queue (i ∷ ids) = elim (get queue i) [
  | none ↦ items_of queue ids
  | some item ↦ item ∷ items_of queue ids
]

abbrev pub sub_task_ids : List WorkItem → List String
sub_task_ids items = map (λ (i : WorkItem). i.sub_task_id) items

abbrev pub has_result : Dict String AgentOutput → String → Bool
has_result results x = elim (get results x) [ none ↦ false | some _ ↦ true ]

abbrev pub is_met : Mission → SubTask → Bool
is_met mission sub_task = all (has_result mission.results) sub_task.depends_on

-- `sub_tasks.index(sub_task)`, where sub-tasks are told apart by their identifiers.
abbrev pub index_of : String → MissionPlan → ℕ
index_of x [] = 0
index_of x (t ∷ ts) = if t.id == x then 0 else suc (index_of x ts)

unfoldable pub sub_tasks_by_id : Dict String SubTask → MissionPlan → Dict String SubTask
sub_tasks_by_id known [] = known
sub_tasks_by_id known (t ∷ ts) = sub_tasks_by_id (put known t.id t) ts

abbrev pub or_empty : Option String → String
or_empty none = ""
or_empty (some x) = x
