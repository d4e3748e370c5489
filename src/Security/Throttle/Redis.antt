-- ===== src/Security/Throttle/Redis.antt =====
-- `RedisLoginThrottle` of app/security/throttle.py. The Redis client is a parameter: each command
-- replies or fails, as the server's state has it, and nothing is assumed of the replies.
pub mod Laws
pub mod Outage
use cyber_threat_intelligenc.Prelude.{
  ℕ, Bool, true, false, Option, none, some, ◌++◌, List, [], ◌∷◌, leb, ltb, if◌then◌else◌, ◌==◌,
  nat_eq,
}
use cyber_threat_intelligenc.Prelude.Text.{Text, codes}
use cyber_threat_intelligenc.Security.Throttle
use cyber_threat_intelligenc.Security.Throttle.{normalise, InMemoryLoginThrottle}

-- `none` is a raised exception. `ttl` gives 0 for the negative replies.
pub record RedisClient : Type 1 where
  pub State : Type 0
  pub exists : Text → State → Option Bool × State
  pub ttl : Text → State → Option ℕ × State
  pub incr : Text → State → Option ℕ × State
  pub expire : Text → ℕ → State → Option (Unit {0}) × State
  pub set : Text → ℕ → State → Option (Unit {0}) × State
  pub delete : List Text → State → Option (Unit {0}) × State

abbrev failure_prefix : Text
failure_prefix = codes "login_fail:"

abbrev lock_prefix : Text
lock_prefix = codes "login_lock:"

module _ (C : RedisClient) where
  open C use {State, exists, ttl, incr, expire, set, delete}

  pub record RedisLoginThrottle : Type 0 where
    pub redis : State
    pub max_attempts : ℕ
    pub lockout_seconds : ℕ
    pub fallback : InMemoryLoginThrottle

  local_is_locked : ℕ → Text → RedisLoginThrottle → Bool × RedisLoginThrottle
  local_is_locked now identity t =
      let (locked, local) = Throttle.is_locked now identity t.fallback in
      (locked, record t { fallback = local })

  unfoldable pub is_locked : ℕ → Text → RedisLoginThrottle → Bool × RedisLoginThrottle
  unfolding local_is_locked
  is_locked now identity t =
      let (reply, redis') = exists (lock_prefix ++ normalise identity) t.redis in
      let t' = record t { redis = redis' } in
      let otherwise = local_is_locked now identity t' in
      elim reply [ none ↦ otherwise | some locked ↦ if locked then (true, t') else otherwise ]

  unfoldable pub retry_after : ℕ → Text → RedisLoginThrottle → ℕ × RedisLoginThrottle
  retry_after now identity t =
      let (reply, redis') = ttl (lock_prefix ++ normalise identity) t.redis in
      let t' = record t { redis = redis' } in
      let otherwise = Throttle.retry_after now identity t.fallback in
      elim reply [
        | none ↦ (otherwise, t')
        | some left ↦ (if ltb 0 left then left else otherwise, t')
      ]

  -- The `try` block of `record_failure`: a command that fails ends it.
  unfoldable pub count_in_redis : ℕ → ℕ → Text → State → State
  count_in_redis max_attempts lockout_seconds key redis =
      let (reply, r1) = incr (failure_prefix ++ key) redis in
      elim reply [
        | none ↦ r1
        | some failures ↦
            let (expired, r2) =
              if failures == 1
              then expire (failure_prefix ++ key) lockout_seconds r1
              else (some tt, r1) in
            elim expired [
              | none ↦ r2
              | some _ ↦
                  if leb max_attempts failures
                  then (set (lock_prefix ++ key) lockout_seconds r2).1
                  else r2
            ]
      ]

  unfoldable pub record_failure : ℕ → Text → RedisLoginThrottle → RedisLoginThrottle
  record_failure now identity t = record t {
    fallback = Throttle.record_failure now identity t.fallback;
    redis = count_in_redis t.max_attempts t.lockout_seconds (normalise identity) t.redis;
  }

  unfoldable pub record_success : Text → RedisLoginThrottle → RedisLoginThrottle
  record_success identity t =
      let key = normalise identity in
      record t {
        fallback = Throttle.record_success identity t.fallback;
        redis = (delete ((failure_prefix ++ key) ∷ (lock_prefix ++ key) ∷ []) t.redis).1;
      }
