-- ===== src/Orchestration.antt =====
-- The orchestration module (orchestration/).
pub mod Dag
pub mod Engine
pub mod PlanExecutor
pub mod PlanText
pub mod Hitl
