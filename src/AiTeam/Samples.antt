-- ===== src/AiTeam/Samples.antt =====
-- A firm whose agents all answer: its missions, teams and decisions, run on concrete inputs.
pub mod Fresh
pub mod Firm
mod Runs
mod Choices
