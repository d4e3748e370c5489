-- ===== src/Collectors.antt =====
-- app/collectors: the client that a collector calls its provider through, the normalisers of the
-- answers, the samples, and the factory.
pub mod Http
pub mod Samples
pub mod Providers
pub mod Factory
