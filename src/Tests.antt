-- ===== src/Tests.antt =====
-- Runs of the models at concrete inputs, and the theorems applied at inputs that meet their
-- hypotheses.
mod Samples
mod BreakerRuns
mod WindowRuns
mod TelemetryRuns
mod DagRuns
mod MemoryRuns
mod LimiterRuns
mod RetryRuns
mod EngineRuns
mod WorkflowRuns
mod PlanRuns
mod PlanTextRuns
mod HitlRuns
