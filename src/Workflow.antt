-- ===== src/Workflow.antt =====
-- Workflows and their versions: backend/src/tmis/workflow_automation/workflow_engine (schemas.py,
-- store.py and engine.py).
pub mod Schemas
pub mod Versions
pub mod Activation
pub mod Single
mod Samples
