-- ===== src/Security/TokenStore.antt =====
-- `InMemoryTokenStore` of app/security/token_store.py. A reading of the monotonic clock is a
-- number of microseconds.
pub mod Laws
pub mod Redis
use cyber_threat_intelligenc.Prelude.{
  ℕ, ◌+◌, ◌*◌, Bool, true, false, Option, none, some, max, ltb, leb, if◌then◌else◌,
}
use cyber_threat_intelligenc.Prelude.Dict.{Dict, lookup, insert, erase, keep_values}
use cyber_threat_intelligenc.Prelude.Text.{Text, text_eq}
use cyber_threat_intelligenc.Security.Throttle.{second}

-- `_revoked`: when the revocation of each token id ends.
abbrev pub TokenStore : Type 0
TokenStore = Dict Text ℕ

-- Deletes what has `exp <= now`.
unfoldable pub prune : ℕ → TokenStore → TokenStore
prune now revoked = keep_values (λ exp. ltb now exp) revoked

unfoldable pub revoke : ℕ → Text → ℕ → TokenStore → TokenStore
unfolding prune
revoke now jti ttl_seconds revoked =
    insert jti (now + max ttl_seconds 1 * second) (prune now revoked)

unfoldable pub is_revoked : ℕ → Text → TokenStore → Bool × TokenStore
is_revoked now jti revoked = elim (lookup jti revoked) [
  | none ↦ (false, revoked)
  | some exp ↦ if leb exp now then (false, erase jti revoked) else (true, revoked)
]
