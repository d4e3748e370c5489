-- ===== src/Auth/Login/Rotation.antt =====
-- A refresh token is used once: `refresh` revokes it. How long the revocation lasts.
use cyber_threat_intelligenc.Prelude.{
  ℕ, ◌+◌, ◌*◌, ◌≤◌, ◌<◌, ◌≡◌, refl, ◌∙◌, true, false, some, List, [], arith, lt→ltb, inl, inr,
}
use cyber_threat_intelligenc.Prelude.Dict.{NodupKeys}
use cyber_threat_intelligenc.Prelude.Text.{text_eq}
use cyber_threat_intelligenc.Errors.{ok, err, AppError, is_ok, Result-cases}
use cyber_threat_intelligenc.Security.Throttle.{second}
use cyber_threat_intelligenc.Security.TokenStore
use cyber_threat_intelligenc.Security.TokenStore.Laws.{
  Op, run, Elsewhere, revocation_exact, is_revoked-NodupKeys,
}
use cyber_threat_intelligenc.Security.Tokens.{
  Jwt, IsLawful, TokenService, TokenClaims, refresh, decode_token, decode_token-stable,
}
use cyber_threat_intelligenc.Auth.Store.{User, Backend, get_user?}
use cyber_threat_intelligenc.Auth.Login.{Argon2, Moment, Randomness, remaining_ttl, refresh_pair}

module _ (J : Jwt) (A : Argon2) (tokens : TokenService) where
  -- What a refresh that succeeds leaves behind.
  refresh_pair-ok :
      (at : Moment) (rand : Randomness) (token : J.Token) (claims : TokenClaims) (b : Backend)
      → decode_token J tokens at.wall refresh token ≡ ok claims
      → is_ok (refresh_pair J A tokens at rand token b).0 ≡ true
      → (refresh_pair J A tokens at rand token b).1.token_store
        ≡ TokenStore.revoke at.mono claims.jti
            (remaining_ttl at.wall claims.expires_at)
            (TokenStore.is_revoked at.mono claims.jti b.token_store).1
  unfolding refresh_pair
  refresh_pair-ok at rand token claims b decoded success =
      rw (decoded, refresh_pair) (ground (arith, rw (decoded, refresh_pair) at success))

  refresh_pair-revoked :
      (at : Moment) (rand : Randomness) (token : J.Token) (claims : TokenClaims) (b : Backend)
      → decode_token J tokens at.wall refresh token ≡ ok claims
      → (TokenStore.is_revoked at.mono claims.jti b.token_store).0 ≡ true
      → is_ok (refresh_pair J A tokens at rand token b).0 ≡ false
  unfolding refresh_pair
  refresh_pair-revoked at rand token claims b decoded revoked =
      rw (decoded, refresh_pair) (ground (arith, revoked))

  refresh_pair-undecoded :
      (at : Moment) (rand : Randomness) (token : J.Token) (e : AppError) (b : Backend)
      → decode_token J tokens at.wall refresh token ≡ err e
      → is_ok (refresh_pair J A tokens at rand token b).0 ≡ false
  unfolding refresh_pair
  refresh_pair-undecoded at rand token e b decoded = rw (decoded, refresh_pair) refl

  -- Both clocks have run the same way from the first moment to the second.
  abbrev pub Agrees : Moment → Moment → Type 0
  Agrees at later = (at.wall ≤ later.wall) × (at.mono + later.wall ≡ later.mono + at.wall)

  still_revoked :
      (at later : Moment) (claims : TokenClaims) (ops : List Op) (b : Backend)
      (store : TokenStore.TokenStore)
      → Agrees at later
      → later.wall + second ≤ claims.expires_at
      → NodupKeys b.token_store
      → Elsewhere later.mono claims.jti ops
      → store
        ≡ run ops (
            TokenStore.revoke at.mono claims.jti
              (remaining_ttl at.wall claims.expires_at)
              (TokenStore.is_revoked at.mono claims.jti b.token_store).1)
      → (TokenStore.is_revoked later.mono claims.jti store).0 ≡ true
  unfolding remaining_ttl
  still_revoked at later claims ops b store agree early u h e = rw e (
      revocation_exact at.mono later.mono (remaining_ttl at.wall claims.expires_at) claims.jti ops
        (TokenStore.is_revoked at.mono claims.jti b.token_store).1
        (is_revoked-NodupKeys at.mono claims.jti b.token_store u) (omega (arith, agree)) h
      ∙ lt→ltb _ _ (omega (arith, agree, early)))

  -- After a refresh that succeeded, the same token is refused whatever else has been revoked or
  -- asked in between, as long as it is used again at least a second before it expires.
  pub replay_refused :
      IsLawful J
      → (at later : Moment) (rand rand' : Randomness) (token : J.Token) (claims : TokenClaims)
        (ops : List Op) (b later_b : Backend)
      → NodupKeys b.token_store
      → decode_token J tokens at.wall refresh token ≡ ok claims
      → is_ok (refresh_pair J A tokens at rand token b).0 ≡ true
      → Agrees at later
      → later.wall + second ≤ claims.expires_at
      → Elsewhere later.mono claims.jti ops
      → later_b.token_store ≡ run ops (refresh_pair J A tokens at rand token b).1.token_store
      → is_ok (refresh_pair J A tokens later rand' token later_b).0 ≡ false
  replay_refused L at later rand rand' token claims ops b later_b u decoded success agree early h
        e =
      elim (Result-cases (decode_token J tokens later.wall refresh token)) [
        | inl (claims', decoded') ↦
            let same =
              decode_token-stable J L tokens refresh token at.wall later.wall claims claims' decoded
                decoded' in
            refresh_pair-revoked later rand' token claims later_b (rw same decoded') (
              still_revoked at later claims ops b later_b.token_store agree early u h
                (rw (refresh_pair-ok at rand token claims b decoded success) at e))
        | inr (x, failed) ↦ refresh_pair-undecoded later rand' token x later_b failed
      ]

  run_out :
      (at later : Moment) (claims : TokenClaims) (b : Backend) (store : TokenStore.TokenStore)
      → Agrees at later
      → NodupKeys b.token_store
      → at.mono + remaining_ttl at.wall claims.expires_at * second ≤ later.mono
      → store
        ≡ TokenStore.revoke at.mono claims.jti
            (remaining_ttl at.wall claims.expires_at)
            (TokenStore.is_revoked at.mono claims.jti b.token_store).1
      → (TokenStore.is_revoked later.mono claims.jti store).0 ≡ false
  unfolding remaining_ttl run
  run_out at later claims b store agree u over e = rw e (
      revocation_exact at.mono later.mono (remaining_ttl at.wall claims.expires_at) claims.jti []
        (TokenStore.is_revoked at.mono claims.jti b.token_store).1
        (is_revoked-NodupKeys at.mono claims.jti b.token_store u) (omega (arith, agree)) tt
      ∙ ground (arith, over))

  ttl_over :
      (at later : Moment) (seconds : ℕ) (claims : TokenClaims)
      → 1 ≤ seconds
      → at.wall + seconds * 1000000 ≤ later.wall
      → later.wall < claims.expires_at
      → claims.expires_at < at.wall + (seconds + 1) * 1000000
      → Agrees at later
      → at.mono + remaining_ttl at.wall claims.expires_at * second ≤ later.mono
  unfolding remaining_ttl
  ttl_over at later seconds claims positive whole early fraction agree =
      omega (arith, positive, whole, early, fraction, agree)

  -- A refresh token that was refreshed `seconds` whole seconds, at least one, and a fraction before
  -- it expires, and is used again in that last fraction, when PyJWT still decodes it and the account is there and
  -- active, is accepted a second time if no store was touched in between.
  pub replay_accepted :
      (at later : Moment) (rand rand' : Randomness) (token : J.Token) (claims : TokenClaims)
      (user : User) (seconds : ℕ) (b later_b : Backend)
      → NodupKeys b.token_store
      → decode_token J tokens at.wall refresh token ≡ ok claims
      → is_ok (refresh_pair J A tokens at rand token b).0 ≡ true
      → Agrees at later
      → decode_token J tokens later.wall refresh token ≡ ok claims
      → 1 ≤ seconds
      → at.wall + seconds * 1000000 ≤ later.wall
      → later.wall < claims.expires_at
      → claims.expires_at < at.wall + (seconds + 1) * 1000000
      → later_b.token_store ≡ (refresh_pair J A tokens at rand token b).1.token_store
      → get_user? claims.subject later_b.db ≡ some user
      → user.is_active ≡ true
      → is_ok (refresh_pair J A tokens later rand' token later_b).0 ≡ true
  unfolding refresh_pair
  replay_accepted at later rand rand' token claims user seconds b later_b u decoded success agree
        decoded' some_seconds whole early fraction e found active =
      let over = ttl_over at later seconds claims some_seconds whole early fraction agree in
      let unrevoked =
        run_out at later claims b later_b.token_store agree u over
          (rw (refresh_pair-ok at rand token claims b decoded success) at e) in
      rw (decoded', refresh_pair) (ground (arith, unrevoked, found, active))
