-- ===== src/Security/TokenStore/Laws.antt =====
-- A revocation lasts exactly as long as it says, whatever else the store is asked meanwhile.
use cyber_threat_intelligenc.Prelude.{
  ℕ, ◌+◌, ◌*◌, ◌≤◌, ◌≡◌, refl, ◌≢◌, ◌∙◌, Bool, Option, none, some, List, [], ◌∷◌, arith, max, ltb,
  if◌then◌else◌, ◌==◌,
}
use cyber_threat_intelligenc.Prelude.Dict.{
  lookup, lookup-insert, lookup-erase, NodupKeys, insert-NodupKeys, erase-NodupKeys,
  lookup-keep_values, keep_values-NodupKeys,
}
use cyber_threat_intelligenc.Prelude.Text.{Text, text_eq}
use cyber_threat_intelligenc.Security.Throttle.{second}
use cyber_threat_intelligenc.Security.TokenStore.{TokenStore, revoke, is_revoked}

-- The abstract view: from when on a token id is no longer revoked, 0 for never.
abbrev ends : Option ℕ → ℕ
ends none = 0
ends (some exp) = exp

abbrev pub revoked_at : ℕ → TokenStore → Text → Bool
revoked_at now s jti = ltb now (ends (lookup jti s))

pub is_revoked-eq :
    (now : ℕ) (jti : Text) (s : TokenStore) → (is_revoked now jti s).0 ≡ revoked_at now s jti
unfolding is_revoked
is_revoked-eq now jti s = ground arith

revoked_at-revoke :
    (t now ttl : ℕ) (j k : Text) (s : TokenStore)
    → NodupKeys s
    → t ≤ now
    → revoked_at now (revoke t k ttl s) j
      ≡ (if j == k then ltb now (t + max ttl 1 * second) else revoked_at now s j)
unfolding revoke
revoked_at-revoke t now ttl j k s u h =
    rw lookup-insert (rw (lookup-keep_values (λ exp. ltb t exp) j s u) (ground arith))

revoked_at-is_revoked :
    (t now : ℕ) (j k : Text) (s : TokenStore)
    → t ≤ now
    → revoked_at now (is_revoked t k s).1 j ≡ revoked_at now s j
unfolding is_revoked
revoked_at-is_revoked t now j k s h = ground (arith, lookup-erase j k s)

revoke-NodupKeys :
    (t ttl : ℕ) (k : Text) (s : TokenStore) → NodupKeys s → NodupKeys (revoke t k ttl s)
unfolding revoke
revoke-NodupKeys t ttl k s u = insert-NodupKeys k _ _ (keep_values-NodupKeys (λ exp. ltb t exp) s u)

pub is_revoked-NodupKeys :
    (t : ℕ) (k : Text) (s : TokenStore) → NodupKeys s → NodupKeys (is_revoked t k s).1
unfolding is_revoked
is_revoked-NodupKeys t k s u = ground (arith, erase-NodupKeys k s u)

-- What the store is asked, with the clock at the call.
pub data Op : Type 0 where
  revoking : ℕ → Text → ℕ → Op
  asking : ℕ → Text → Op

unfoldable pub step : Op → TokenStore → TokenStore
step (revoking t k ttl) s = revoke t k ttl s
step (asking t k) s = (is_revoked t k s).1

unfoldable pub run : List Op → TokenStore → TokenStore
unfolding step
run [] s = s
run (op ∷ ops) s = run ops (step op s)

-- None of the calls is later than `now`, and none revokes `jti` anew.
abbrev pub Elsewhere : ℕ → Text → List Op → Type 0
Elsewhere now jti [] = Unit
Elsewhere now jti (revoking t k ttl ∷ ops) = (t ≤ now) × (jti ≢ k) × Elsewhere now jti ops
Elsewhere now jti (asking t k ∷ ops) = (t ≤ now) × Elsewhere now jti ops

run_kept :
    (now : ℕ) (jti : Text) (ops : List Op) (s : TokenStore)
    → NodupKeys s
    → Elsewhere now jti ops
    → revoked_at now (run ops s) jti ≡ revoked_at now s jti
unfolding run
run_kept now jti [] s u h = refl
run_kept now jti (revoking t k ttl ∷ ops) s u (le, ne, h) =
    run_kept now jti ops (revoke t k ttl s) (revoke-NodupKeys t ttl k s u) h
    ∙ revoked_at-revoke t now ttl jti k s u le
    ∙ ground (arith, ne)
run_kept now jti (asking t k ∷ ops) s u (le, h) =
    run_kept now jti ops (is_revoked t k s).1 (is_revoked-NodupKeys t k s u) h
    ∙ revoked_at-is_revoked t now jti k s le

-- After `revoke`, and any further calls that do not revoke the same id, `is_revoked` says yes
-- exactly until `ttl_seconds`, or one second if that is less, have passed.
pub revocation_exact :
    (t now ttl : ℕ) (jti : Text) (ops : List Op) (s : TokenStore)
    → NodupKeys s
    → t ≤ now
    → Elsewhere now jti ops
    → (is_revoked now jti (run ops (revoke t jti ttl s))).0 ≡ ltb now (t + max ttl 1 * second)
revocation_exact t now ttl jti ops s u le h =
    is_revoked-eq now jti (run ops (revoke t jti ttl s))
    ∙ run_kept now jti ops (revoke t jti ttl s) (revoke-NodupKeys t ttl jti s u) h
    ∙ revoked_at-revoke t now ttl jti jti s u le
    ∙ ground arith
