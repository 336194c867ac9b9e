-- ===== src/Breaker.antt =====
-- breaker: the circuit breaker and its groups.
mod Tests
pub mod Sre
pub mod Marks
pub mod History
pub mod Allow
pub mod Runs
pub mod Group
