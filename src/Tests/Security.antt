-- ===== src/Tests/Security.antt =====
-- Lockouts, revocations and permissions at work.
use cyber_threat_intelligenc.Prelude.{
  ℕ, ◌≡◌, ◌≢◌, refl, true, false, none, some, List, [], ◌∷◌, arith, string_eq,
}
use native.Mathlib.Decide.{ℕ_discrete}
use cyber_threat_intelligenc.Prelude.Dict.{lookup, insert}
use cyber_threat_intelligenc.Prelude.Text.{Text, text_eq, codes, lower, strip}
use cyber_threat_intelligenc.Security.Throttle
use cyber_threat_intelligenc.Security.Throttle.{
  InMemoryLoginThrottle, normalise, is_locked, record_failure, record_success, retry_after,
  failed_entry, second,
}
use cyber_threat_intelligenc.Security.Throttle.Laws.{lockout_exact, fail_at}
use cyber_threat_intelligenc.Security.Throttle.Redis
use cyber_threat_intelligenc.Security.Throttle.Redis.{RedisClient, RedisLoginThrottle}
use cyber_threat_intelligenc.Security.Throttle.Redis.Laws.{locked_despite_redis, fail_in_redis}
use cyber_threat_intelligenc.Security.Throttle.Redis.Outage
use cyber_threat_intelligenc.Security.Throttle.Redis.Outage.{
  Op, Reply, run_local, run_shared, IsDown, outage-eq-local,
}
use cyber_threat_intelligenc.Security.TokenStore.{is_revoked, revoke}
use cyber_threat_intelligenc.Security.TokenStore.Laws
use cyber_threat_intelligenc.Security.TokenStore.Laws.{revocation_exact}
use cyber_threat_intelligenc.Security.Rbac.{
  has_permission, admin_manage, has_permission-eq-allowed, parse_role,
}
use cyber_threat_intelligenc.Tests.Fixtures.{throttle}

abbrev bob : Text
bob = codes "bob@soc.example"

-- The same identity, spelled otherwise.
abbrev loud_bob : Text
loud_bob = codes " Bob@SOC.example "

abbrev mallory : Text
mallory = codes "mallory"

same_bob : normalise loud_bob ≡ normalise bob
unfolding normalise lower strip
same_bob = refl

other_than_bob : normalise mallory ≢ normalise bob
unfolding normalise lower strip
other_than_bob h = ground (arith, h)

abbrev two_failures : List (ℕ × Text)
two_failures = (1000000, bob) ∷ (2000000, loud_bob) ∷ []

-- The third failure within a minute locks the account for a minute.
lockout_exact_example :
    (is_locked 50000000 bob (record_failure 3000000 loud_bob (fail_at two_failures throttle))).0
    ≡ true
unfolding lookup
lockout_exact_example =
    lockout_exact bob loud_bob two_failures 3000000 50000000 throttle refl (refl, (same_bob, tt))
      same_bob

abbrev locked_bob : InMemoryLoginThrottle
locked_bob = record throttle {
  entries = (bob, record { failures = 3; locked_until = 63000000 }) ∷ [];
}

-- A server that takes every command and remembers nothing, and one that cannot be reached.
abbrev forgetful_redis : RedisClient
forgetful_redis = record {
  State = Unit {0};
  exists = λ k s. (some false, s);
  ttl = λ k s. (some 0, s);
  incr = λ k s. (some 1, s);
  expire = λ k n s. (some tt, s);
  set = λ k n s. (some tt, s);
  delete = λ ks s. (some tt, s);
}

abbrev no_redis : RedisClient
no_redis = record {
  State = Unit {0};
  exists = λ k s. (none, s);
  ttl = λ k s. (none, s);
  incr = λ k s. (none, s);
  expire = λ k n s. (none, s);
  set = λ k n s. (none, s);
  delete = λ ks s. (none, s);
}

abbrev shared : RedisLoginThrottle forgetful_redis
shared = record { redis = tt; max_attempts = 3; lockout_seconds = 60; fallback = throttle }

locked_despite_redis_example :
    (Redis.is_locked forgetful_redis 50000000 bob (
      Redis.record_failure forgetful_redis 3000000 loud_bob
        (fail_in_redis forgetful_redis two_failures shared))).0
    ≡ true
unfolding lookup
locked_despite_redis_example =
    locked_despite_redis forgetful_redis bob loud_bob two_failures 3000000 50000000 shared refl
      (refl, (same_bob, tt)) same_bob (omega arith) (omega arith)

abbrev cut_off : RedisLoginThrottle no_redis
cut_off = record {
  redis = tt;
  max_attempts = 1;
  lockout_seconds = 60;
  fallback = record throttle { max_attempts = 1 };
}

abbrev attempts : List Op
attempts =
    Outage.record_failure 1000000 bob
    ∷ Outage.is_locked 2000000 loud_bob
    ∷ Outage.retry_after 2000000 bob
    ∷ []

outage-eq-local_example :
    run_shared no_redis attempts cut_off
    ≡ Outage.nothing ∷ Outage.flag true ∷ Outage.seconds 59 ∷ []
unfolding run_local Outage.local_step Throttle.is_locked Throttle.retry_after
    Throttle.record_failure failed_entry normalise lower strip text_eq lookup insert ℕ_discrete
outage-eq-local_example =
    outage-eq-local no_redis attempts cut_off
      (record { no_exists = λ k s. refl; no_ttl = λ k s. refl })

-- The entry of another token does not matter.
revocation_exact_example :
    (is_revoked 30000000 (codes "r1") (
      Laws.run
        (Laws.revoking 20000000 (codes "r2") 60 ∷ [])
        (revoke 10000000 (codes "r1") 15 []))).0
    ≡ false
revocation_exact_example =
    revocation_exact 10000000 30000000 15 (codes "r1") (Laws.revoking 20000000 (codes "r2") 60 ∷ [])
      [] tt (omega arith) (omega arith, (λ h. ground (arith, h)), tt)

-- A role string that no release writes.
has_permission-eq-allowed_example : has_permission "owner" admin_manage ≡ false
unfolding parse_role string_eq
has_permission-eq-allowed_example = has_permission-eq-allowed "owner" admin_manage
