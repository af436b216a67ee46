-- ===== src/AiTeam.antt =====
-- Teams of AI agents and the missions that they work on: backend/src/tmis/ai_team (capabilities,
-- planner, registry, delegation, context, work_queue, teams, human_loop, memory, metrics and
-- coordinator).
pub mod Capabilities
pub mod Agents
pub mod Planner
pub mod Delegation
pub mod Context
pub mod WorkQueue
pub mod Mission
pub mod Coordinator
pub mod Missions
pub mod Decisions
pub mod Teams
pub mod HumanLoop
pub mod Memory
pub mod Metrics
mod Samples
