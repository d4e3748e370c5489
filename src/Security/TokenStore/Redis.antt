-- ===== src/Security/TokenStore/Redis.antt =====
-- `RedisTokenStore` of app/security/token_store.py, over the Redis client of the throttle.
use cyber_threat_intelligenc.Prelude.{ℕ, Bool, Option, ◌++◌, max}
use cyber_threat_intelligenc.Prelude.Text.{Text, codes}
use cyber_threat_intelligenc.Security.Throttle.Redis.{RedisClient}

abbrev prefix : Text
prefix = codes "revoked_jti:"

-- `none` is an exception of the client, which both methods let through.
unfoldable pub revoke : (C : RedisClient) → Text → ℕ → C.State → Option (Unit {0}) × C.State
revoke C jti ttl_seconds redis = C.set (prefix ++ jti) (max ttl_seconds 1) redis

unfoldable pub is_revoked : (C : RedisClient) → Text → C.State → Option Bool × C.State
is_revoked C jti redis = C.exists (prefix ++ jti) redis
