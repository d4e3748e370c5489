-- ===== src/Security/Throttle/Redis/Outage.antt =====
-- While Redis is down the shared throttle is the in-process throttle.
use cyber_threat_intelligenc.Prelude.{ℕ, ◌≡◌, refl, Bool, none, List, [], ◌∷◌, arith}
use cyber_threat_intelligenc.Prelude.Text.{Text}
use cyber_threat_intelligenc.Security.Throttle
use cyber_threat_intelligenc.Security.Throttle.{InMemoryLoginThrottle}
use cyber_threat_intelligenc.Security.Throttle.Redis
use cyber_threat_intelligenc.Security.Throttle.Redis.{RedisClient, RedisLoginThrottle}

-- A call of one of the four methods, with the clock.
pub data Op : Type 0 where
  is_locked retry_after record_failure : ℕ → Text → Op
  record_success : Text → Op

pub data Reply : Type 0 where
  flag : Bool → Reply
  seconds : ℕ → Reply
  nothing : Reply

unfoldable pub local_step : Op → InMemoryLoginThrottle → Reply × InMemoryLoginThrottle
local_step (is_locked now i) t = let (b, t') = Throttle.is_locked now i t in (flag b, t')
local_step (retry_after now i) t = (seconds (Throttle.retry_after now i t), t)
local_step (record_failure now i) t = (nothing, Throttle.record_failure now i t)
local_step (record_success i) t = (nothing, Throttle.record_success i t)

unfoldable pub run_local : List Op → InMemoryLoginThrottle → List Reply
run_local [] t = []
run_local (op ∷ ops) t = let (r, t') = local_step op t in r ∷ run_local ops t'

module _ (C : RedisClient) where
  unfoldable pub shared_step : Op → RedisLoginThrottle C → Reply × RedisLoginThrottle C
  shared_step (is_locked now i) t = let (b, t') = Redis.is_locked C now i t in (flag b, t')
  shared_step (retry_after now i) t = let (n, t') = Redis.retry_after C now i t in (seconds n, t')
  shared_step (record_failure now i) t = (nothing, Redis.record_failure C now i t)
  shared_step (record_success i) t = (nothing, Redis.record_success C i t)

  unfoldable pub run_shared : List Op → RedisLoginThrottle C → List Reply
  run_shared [] t = []
  run_shared (op ∷ ops) t = let (r, t') = shared_step op t in r ∷ run_shared ops t'

  -- The two commands whose replies are used fail.
  pub record IsDown : Type 0 where
    pub no_exists : (k : Text) (s : C.State) → (C.exists k s).0 ≡ none
    pub no_ttl : (k : Text) (s : C.State) → (C.ttl k s).0 ≡ none

  shared_step-local_step :
      (op : Op) (t : RedisLoginThrottle C)
      → IsDown
      → ((shared_step op t).0 ≡ (local_step op t.fallback).0)
        × ((shared_step op t).1.fallback ≡ (local_step op t.fallback).1)
  unfolding shared_step local_step Redis.is_locked Redis.retry_after Redis.record_failure
      Redis.record_success
  shared_step-local_step (is_locked now i) t d = grind (arith, d.no_exists)
  shared_step-local_step (retry_after now i) t d = grind (arith, d.no_ttl)
  shared_step-local_step (record_failure now i) t d = (refl, refl)
  shared_step-local_step (record_success i) t d = (refl, refl)

  -- While Redis is down, any sequence of calls gets the replies that the in-process throttle
  -- gives to it.
  pub outage-eq-local :
      (ops : List Op) (t : RedisLoginThrottle C)
      → IsDown
      → run_shared ops t ≡ run_local ops t.fallback
  unfolding run_shared run_local
  outage-eq-local [] t d = refl
  outage-eq-local (op ∷ ops) t d =
      let (same, next) = shared_step-local_step op t d in
      rw (same, outage-eq-local ops (shared_step op t).1 d, next) refl
