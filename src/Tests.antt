-- ===== src/Tests.antt =====
-- Runs of the models at concrete inputs.
pub mod Fixtures
pub mod Resilience
pub mod Events
pub mod Security
pub mod Auth
pub mod Api
pub mod Alerts
pub mod Platform
pub mod Collectors
pub mod Indicators
pub mod Iocs
