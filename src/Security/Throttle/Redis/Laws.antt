-- ===== src/Security/Throttle/Redis/Laws.antt =====
-- What the shared throttle keeps, whatever Redis replies, and while Redis is down.
use cyber_threat_intelligenc.Prelude.{
  ℕ, ◌+◌, ◌*◌, ◌≤◌, ◌<◌, ◌≡◌, refl, ◌∙◌, true, none, List, [], ◌∷◌, arith, length, le→leb, lt→ltb,
}
use cyber_threat_intelligenc.Prelude.Dict.{lookup}
use cyber_threat_intelligenc.Prelude.Text.{Text, text_eq}
use cyber_threat_intelligenc.Security.Throttle
use cyber_threat_intelligenc.Security.Throttle.{second, normalise, InMemoryLoginThrottle}
use cyber_threat_intelligenc.Security.Throttle.Laws.{fail_at, SameIdentity, lockout_exact}
use cyber_threat_intelligenc.Security.Throttle.Redis.{
  RedisClient, RedisLoginThrottle, is_locked, record_failure,
}

module _ (C : RedisClient) where
  abbrev T : Type 0
  T = RedisLoginThrottle C

  -- Whatever Redis replies, an identity that the local throttle has locked is locked.
  never_fails_open :
      (now : ℕ) (identity : Text) (t : T)
      → (Throttle.is_locked now identity t.fallback).0 ≡ true
      → (is_locked C now identity t).0 ≡ true
  unfolding is_locked
  never_fails_open now identity t h = ground (arith, h)

  unfoldable pub fail_in_redis : List (ℕ × Text) → T → T
  fail_in_redis [] t = t
  fail_in_redis ((now, identity) ∷ rest) t = fail_in_redis rest (record_failure C now identity t)

  fallback-fail_in_redis :
      (xs : List (ℕ × Text)) (t : T) → (fail_in_redis xs t).fallback ≡ fail_at xs t.fallback
  unfolding fail_in_redis fail_at record_failure
  fallback-fail_in_redis [] t = refl
  fallback-fail_in_redis ((now, identity) ∷ rest) t =
      fallback-fail_in_redis rest (record_failure C now identity t)

  -- Whatever Redis replies to any command, an identity new to the local throttle that has failed
  -- at least `max_attempts` times is locked for `lockout_seconds` from its last failure.
  pub locked_despite_redis :
      (identity i : Text) (xs : List (ℕ × Text)) (last now : ℕ) (t : T)
      → lookup (normalise identity) t.fallback.entries ≡ none
      → SameIdentity identity xs
      → normalise i ≡ normalise identity
      → t.fallback.max_attempts ≤ length xs + 1
      → now < last + t.fallback.lockout_seconds * second
      → (is_locked C now identity (record_failure C last i (fail_in_redis xs t))).0 ≡ true
  unfolding record_failure
  locked_despite_redis identity i xs last now t new h same enough early =
      never_fails_open now identity (record_failure C last i (fail_in_redis xs t)) (
        rw fallback-fail_in_redis (
          lockout_exact identity i xs last now t.fallback new h same
          ∙ rw (le→leb _ _ enough, lt→ltb _ _ early) refl))
