-- ===== src/Resil.antt =====
-- internal/engine/resil: error classification, the circuit breaker and the retry loop.
pub mod Errors
pub mod Breaker
pub mod Retrier
mod Tests
