-- ===== src/Resilience.antt =====
-- The resilience module (resilience/).
pub mod Window
pub mod Breaker
pub mod Retry
