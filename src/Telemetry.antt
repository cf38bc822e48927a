-- ===== src/Telemetry.antt =====
-- The telemetry module (telemetry/).
pub mod Circuit
pub mod Cardinality
pub mod RateLimiter
