-- ===== src/Security.antt =====
-- app/security: who may do what, lockout, and revoked tokens.
pub mod Throttle
pub mod TokenStore
pub mod Rbac
pub mod Tokens
pub mod Cipher
