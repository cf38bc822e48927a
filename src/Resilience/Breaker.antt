-- ===== src/Resilience/Breaker.antt =====
-- The circuit breaker of resilience/circuit_breaker.go: its configuration, its state with the moves
-- between the three states, the executions that it admits, and its manual controls.
pub mod Config
pub mod State
pub mod Evaluation
pub mod Execution
pub mod Control
pub mod History
pub mod Soundness
pub mod Safety
pub mod Admission
pub mod Exhaustion
pub mod Lockout
pub mod Testing
pub mod Legacy
pub mod Opening
pub mod Construction
