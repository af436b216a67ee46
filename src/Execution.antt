-- ===== src/Execution.antt =====
-- The execution engine: backend/src/tmis/workflow_automation/execution_engine (schemas.py, store.py
-- and engine.py). The engine is in the children: one step and a group of steps in Execution/Step.antt, a
-- whole run in Execution/Run.antt.
pub mod Schemas
pub mod Step
pub mod Steps
pub mod Gather
pub mod Run
pub mod Progression
pub mod Extension
pub mod Outcomes
pub mod Samples
