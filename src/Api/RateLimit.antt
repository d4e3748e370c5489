-- ===== src/Api/RateLimit.antt =====
-- `InMemoryRateLimiter` of app/api/middleware.py. A reading of the clock is a number of
-- microseconds.
pub mod Laws
pub mod Window
use cyber_threat_intelligenc.Prelude.{
  ℕ, suc, ◌-◌, ◌*◌, ◌/◌, Bool, true, false, Option, none, some, List, [], ◌∷◌, ◌++◌, length,
  contains, leb, ltb, if◌then◌else◌, ◌==◌, not,
}
use cyber_threat_intelligenc.Prelude.Dict.{Dict, lookup, insert, keep_values}
use cyber_threat_intelligenc.Prelude.Text.{Text, text_eq, codes}
use cyber_threat_intelligenc.Security.Throttle.{second}
use cyber_threat_intelligenc.Api.ClientIp.{IpLibrary, Request, client_ip}

abbrev pub window : ℕ
window = 60 * second

pub record InMemoryRateLimiter : Type 0 where
  pub limit : ℕ
  pub hits : Dict Text (List ℕ)
  pub last_sweep : ℕ

abbrev pub new_limiter : ℕ → InMemoryRateLimiter
new_limiter limit = record { limit = limit; hits = []; last_sweep = 0 }

-- The request goes on to the application, or is answered with 429 and `Retry-After`.
pub data Reply : Type 0 where
  passed : Reply
  limited : ℕ → Reply

abbrev pub hits_or_new : Option (List ℕ) → List ℕ
hits_or_new none = []
hits_or_new (some hits) = hits

-- The loop that drops the hits that have left the window.
unfoldable pub trim : ℕ → List ℕ → List ℕ
trim now [] = []
trim now (t ∷ bucket) =
    let rest = trim now bucket in if ltb window (now - t) then rest else t ∷ bucket

unfoldable pub is_stale : ℕ → List ℕ → Bool
is_stale now [] = true
is_stale now (t ∷ []) = ltb window (now - t)
is_stale now (t ∷ u ∷ hits) = is_stale now (u ∷ hits)

unfoldable pub maybe_sweep : ℕ → InMemoryRateLimiter → InMemoryRateLimiter
unfolding is_stale
maybe_sweep now l =
    if ltb (now - l.last_sweep) window
    then l
    else record l { last_sweep = now; hits = keep_values (λ hits. not (is_stale now hits)) l.hits }

-- `int` drops the fraction of a second; the `max` is what subtraction on ℕ does.
abbrev pub wait_for : ℕ → List ℕ → ℕ
wait_for now [] = 60
wait_for now (t ∷ bucket) = (window - (now - t)) / second

-- `dispatch` from the look-up of the bucket on.
unfoldable pub admit : ℕ → Text → InMemoryRateLimiter → Reply × InMemoryRateLimiter
unfolding trim maybe_sweep
admit now client l =
    let bucket = trim now (hits_or_new (lookup client l.hits)) in
    if leb l.limit (length bucket)
    then (limited (wait_for now bucket), record l { hits = insert client bucket l.hits })
    else (passed, maybe_sweep now (record l { hits = insert client (bucket ++ now ∷ []) l.hits }))

abbrev pub is_exempt : Text → Bool
is_exempt path = contains (codes "/api/v1/health" ∷ codes "/api/v1/ready" ∷ []) path

-- `client_ip(request) or "unknown"`
abbrev pub client_of : Option Text → Text
client_of none = codes "unknown"
client_of (some address) = if address == [] then codes "unknown" else address

unfoldable pub dispatch :
    (I : IpLibrary)
    → List I.Network
    → ℕ
    → Request
    → InMemoryRateLimiter
    → Reply × InMemoryRateLimiter
unfolding admit
dispatch I trusted now request l =
    if is_exempt request.path
    then (passed, l)
    else admit now (client_of (client_ip I trusted request)) l
