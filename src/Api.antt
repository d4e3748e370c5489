-- ===== src/Api.antt =====
-- app/api/client_ip.py, the rate limiter of app/api/middleware.py, and endpoints of
-- app/api/v1.
pub mod Account
pub mod Admin
pub mod ClientIp
pub mod RateLimit
