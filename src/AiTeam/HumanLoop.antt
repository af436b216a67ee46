-- ===== src/AiTeam/HumanLoop.antt =====
-- What people decide on a mission: ai_team/human_loop (schemas.py, engine.py and store.py).
use tmis.Prelude.{ℕ, String, List, [], ◌∷◌, ◌++◌, ◌==◌, nat_eq, string_eq, key_eq, keep}
use tmis.Prelude.Dict.{Dict}
use tmis.Prelude.Python.{join}

pub data HumanDecisionType : Type 0 where
  approve request_new_analysis exclude_agent add_agent modify_plan rerun_steps : HumanDecisionType

pub record HumanDecision : Type 0 where
  pub id : String
  pub mission_id : String
  pub actor_id : String
  pub decision_type : HumanDecisionType
  pub payload : Dict String String
  pub decided_at : ℕ

-- `HumanLoopEngine._record`, with the new identifier, the time and the store.
unfoldable pub record_decision :
    (id : String) (now : ℕ)
    → List HumanDecision
    → (mission_id actor_id : String) → HumanDecisionType
    → Dict String String
    → HumanDecision × List HumanDecision
record_decision id now store mission_id actor_id decision_type payload =
    let decision : HumanDecision = record {
      id = id;
      mission_id = mission_id;
      actor_id = actor_id;
      decision_type = decision_type;
      payload = payload;
      decided_at = now;
    } in
    (decision, store ++ decision ∷ [])

module _ (id : String) (now : ℕ) (store : List HumanDecision) (mission_id actor_id : String) where
  unfoldable pub decide_approve : HumanDecision × List HumanDecision
  unfolding record_decision
  decide_approve = record_decision id now store mission_id actor_id approve []

  unfoldable pub decide_new_analysis : String → HumanDecision × List HumanDecision
  unfolding record_decision
  decide_new_analysis sub_task_id =
      record_decision id now store mission_id actor_id request_new_analysis
        (("sub_task_id", sub_task_id) ∷ [])

  unfoldable pub decide_exclude_agent : String → HumanDecision × List HumanDecision
  unfolding record_decision
  decide_exclude_agent agent_id =
      record_decision id now store mission_id actor_id exclude_agent (("agent_id", agent_id) ∷ [])

  unfoldable pub decide_add_agent : String → HumanDecision × List HumanDecision
  unfolding record_decision
  decide_add_agent agent_id =
      record_decision id now store mission_id actor_id add_agent (("agent_id", agent_id) ∷ [])

  unfoldable pub decide_modify_plan : String → HumanDecision × List HumanDecision
  unfolding record_decision
  decide_modify_plan note =
      record_decision id now store mission_id actor_id modify_plan (("note", note) ∷ [])

  unfoldable pub decide_rerun_steps : List String → HumanDecision × List HumanDecision
  unfolding record_decision
  decide_rerun_steps sub_task_ids =
      record_decision id now store mission_id actor_id rerun_steps
        (("sub_task_ids", join "," sub_task_ids) ∷ [])

unfoldable pub history_for_mission : List HumanDecision → String → List HumanDecision
history_for_mission store mission_id = keep (λ d. d.mission_id == mission_id) store
