-- ===== src/Resilience.antt =====
-- app/core/resilience.py and its user app/collectors/http.py.
pub mod Breaker
pub mod Retry
