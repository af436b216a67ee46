-- ===== src/AiTeam/Metrics.antt =====
-- The metrics of missions: ai_team/metrics (schemas.py and engine.py).
use tmis.Prelude.{
  ℕ, ◌+◌, String, Bool, none, some, List, if◌then◌else◌, ◌==◌, nat_eq, string_eq, key_eq, length,
  keep, sum_of,
}
use tmis.Prelude.Dict.{Dict, get, put}
use tmis.AiTeam.Mission.{AgentRun}

-- `MetricsCollector`. Costs and durations are in thousandths.
pub record MetricsCollector : Type 0 where
  pub agent_runs : List AgentRun
  pub consensus_checks : Dict String ℕ
  pub consensus_resolved : Dict String ℕ
  pub revisions : Dict String ℕ
  pub human_validations : Dict String ℕ

pub record MissionMetricsSummary : Type 0 where
  pub mission_id : String
  pub total_cost_usd : ℕ
  pub total_duration_seconds : ℕ
  pub agent_runs : ℕ
  pub consensus_checks : ℕ
  pub consensus_resolved : ℕ
  pub revision_count : ℕ
  pub human_validation_count : ℕ

-- `counts.get(mission_id, 0)`
abbrev pub count_at : Dict String ℕ → String → ℕ
count_at counts k = elim (get counts k) [ none ↦ 0 | some n ↦ n ]

unfoldable pub record_consensus : MetricsCollector → String → Bool → MetricsCollector
record_consensus metrics mission_id resolved =
    let checks =
      put metrics.consensus_checks mission_id (count_at metrics.consensus_checks mission_id + 1) in
    record metrics {
      consensus_checks = checks;
      consensus_resolved =
          if resolved
          then put metrics.consensus_resolved mission_id
              (count_at metrics.consensus_resolved mission_id + 1)
          else metrics.consensus_resolved;
    }

unfoldable pub agent_runs_for_mission : MetricsCollector → String → List AgentRun
agent_runs_for_mission metrics mission_id =
    keep (λ (r : AgentRun). r.mission_id == mission_id) metrics.agent_runs

unfoldable pub summary_for_mission : MetricsCollector → String → MissionMetricsSummary
unfolding agent_runs_for_mission
summary_for_mission metrics mission_id =
    let runs = agent_runs_for_mission metrics mission_id in
    record {
      mission_id = mission_id;
      total_cost_usd = sum_of (λ (r : AgentRun). r.cost_usd) runs;
      total_duration_seconds = sum_of (λ (r : AgentRun). r.duration) runs;
      agent_runs = length runs;
      consensus_checks = count_at metrics.consensus_checks mission_id;
      consensus_resolved = count_at metrics.consensus_resolved mission_id;
      revision_count = count_at metrics.revisions mission_id;
      human_validation_count = count_at metrics.human_validations mission_id;
    }
