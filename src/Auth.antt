-- ===== src/Auth.antt =====
-- app/services/auth_service.py with the repositories that it uses (app/repositories), the session's
-- unit of work (app/database/session.py), and the principal of a request (app/api/deps.py).
pub mod Store
pub mod Users
pub mod Login
pub mod Keys
pub mod Principal
