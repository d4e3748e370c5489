-- ===== src/Lib.antt =====
-- A model of the cyber threat intelligence platform, and what is proved of it.
--
-- The platform is a FastAPI application that collects indicators of compromise. This library models
-- the parts that decide who may act, that limit and revoke access, and that keep calls to other
-- services within bounds. They interact as follows: a request is authenticated to a principal
-- (app/api/deps.py) by a token or an API key, through `AuthService` (app/services/auth_service.py),
-- which reads the rows of the session, asks the login throttle and the token store, and writes the
-- audit log; the session's unit of work commits or rolls back the rows.
--
-- Parts:
--   Prelude: tests, lists, association lists (Python's dict) and text.
--   Errors: app/core/exceptions.py, and the monad `Exec` of methods that write a state and may raise.
--   Resilience/Breaker: `CircuitBreaker`. `call` is the method with no call in between, and
--     `Interleaving.Step` its two atomic halves with any number of callers. Resilience/Retry:
--     `async_retry`, whose result holds the outcome and the sleeps in order.
--   Security/Throttle: app/security/throttle.py, with the Redis client as a parameter of
--     Throttle/Redis. Security/TokenStore: the two token stores. Security/Rbac: roles and
--     permissions. Security/Cipher: `SecretCipher`. Security/Tokens: `TokenService` over PyJWT, a
--     parameter with its laws `IsLawful`.
--   Auth/Store: the rows, queries and unit of work. Auth/Users: registration and administration.
--     Auth/Login: `authenticate`, `refresh`, `logout`. Auth/Keys: API keys. Auth/Principal:
--     `get_current_principal` and `require`.
--   Events: `EventBus` of app/core/events.py. Ssrf: the guard of app/core/ssrf.py. Alerts:
--     `AlertService`, which delivers through the guard and publishes on the bus.
--   Api/ClientIp: `ProxyTrust`. Api/RateLimit: `InMemoryRateLimiter`, which counts by the address
--     that `ProxyTrust` gives. Api/Admin: the endpoints of app/api/v1/admin.py, each behind
--     `require(Permission.admin_manage)`. Api/Account: those of app/api/v1/auth.py for an account
--     and its API keys.
--   Correlation: the edges of app/repositories/correlation_repository.py. Actors: threat actors.
--     Collectors/Http: the providers' client, under the breaker and the retries. Collectors/Providers:
--     the normalisers. Collectors/Samples: the bundled samples. Collectors/Factory: the policy of
--     app/collectors/common.py and factory.py, and the run of a collector. Settings: the
--     start-up check of app/config/settings.py.
--   Indicators: the enumerations of app/ioc/types.py. Indicators/Fang, Patterns and Classify:
--     app/ioc/indicators.py, its regular expressions as tests of a text. Indicators/Extract: the
--     extractors of app/ioc/extract.py; Extract/Stix reads a bundle and scans its patterns, and
--     Extract/Dispatch is `extract_indicators`.
--   Scoring: the levels and weights of app/scoring/engine.py. Scoring/Engine: the signals and
--     `compute_threat_score`. Enrichment: app/enrichment, over the SSRF guard.
--   Iocs: the row of app/models/ioc.py. Iocs/Store: the repositories of indicators and enrichments.
--     Iocs/Service: `IOCService.upsert`, which classifies, enriches, scores, stores, correlates,
--     audits and alerts, in this order. Iocs/Service/Batch: its other methods; in the savepoints of a
--     batch the database may refuse what is written, elsewhere it accepts it.
--   Sharing/Stix and Sharing/Misp: the exports of app/sharing, as JSON values. Reports:
--     app/services/report_service.py.
--   Tests: runs at concrete inputs.
--
-- Numbers are natural numbers. A reading of a clock is a number of microseconds (of ticks in
-- Resilience), so that a difference of floats in the source is exact here; where the source would
-- get a negative difference, subtraction stops at 0: the source takes a `max` with 0, or compares
-- the difference with a positive bound. Locks and the event loop appear as the order of atomic steps. Every definition
-- is structurally recursive, but for the scanner of STIX patterns: each of its turns leaves less of
-- the text, whose length is its fuel. A signal of the score is a multiple of a unit, and arithmetic on
-- signals is exact. A text is the list of its code points, with the letters, digits and white space
-- of ASCII.
--
-- Not modelled: HTTP routing and serialisation, the endpoints of the other routers, logging, migrations, the reading of settings, the
-- traversal of the correlation graph (networkx), the schedule of the workers and the purge of the
-- audit log. Argon2, SHA-256, Fernet, PyJWT, httpx, Redis, ipaddress, urlsplit, csv, json, uuid, the
-- matches of the scanning patterns of `re`, ILIKE and ORDER BY of the database, the resolver and the
-- random source are parameters.
pub mod Enrichment
pub mod Reports
pub mod Iocs
pub mod Sharing
pub mod Prelude
pub mod Errors
pub mod Resilience
pub mod Security
pub mod Auth
pub mod Events
pub mod Ssrf
pub mod Alerts
pub mod Api
pub mod Correlation
pub mod Actors
pub mod Settings
pub mod Collectors
pub mod Indicators
pub mod Scoring
pub mod Tests
