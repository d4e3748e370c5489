-- ===== src/Auth/Principal/Laws.antt =====
-- Who a request is taken to be.
use cyber_threat_intelligenc.Prelude.{
  ◌≡◌, refl, ap, ◌∙◌, ◌==◌, String, true, false, Option, none, some, [], arith, Bool-cases,
  Option-cases, if◌then◌else◌, ◌&&◌, inl, inr, string_eq,
}
use cyber_threat_intelligenc.Prelude.Text.{Text, text_eq}
use cyber_threat_intelligenc.Errors.{invalid_api_key, ok, err, Result-cases}
use cyber_threat_intelligenc.Security.Rbac.{role_eq}
use cyber_threat_intelligenc.Security.TokenStore
use cyber_threat_intelligenc.Security.Tokens.{Jwt, TokenService, TokenClaims, access, decode_token}
use cyber_threat_intelligenc.Auth.Store.{User, ApiKey, Backend, get_user?, get_by_hash}
use cyber_threat_intelligenc.Auth.Users.Rows.{get_user?-id}
use cyber_threat_intelligenc.Auth.Login.{Moment}
use cyber_threat_intelligenc.Auth.Keys.{hash_api_key, resolve_api_key}
use cyber_threat_intelligenc.Auth.Principal.{
  CurrentPrincipal, user, api_key, principal_of, by_token, by_key, get_current_principal,
}

-- The account that a principal acts for is there and active.
abbrev pub IsLive : Backend → CurrentPrincipal → Type 0
IsLive b p = (u : User) × (get_user? p.id b.db ≡ some u) × (u.is_active ≡ true)

principal_of-IsLive :
    (id : String) (found : Option User) (p : CurrentPrincipal) (b : Backend)
    → get_user? id b.db ≡ found
    → (principal_of found b).0 ≡ ok p
    → (u : User) × (found ≡ some u)
      × (p ≡ record { id = u.id; role = u.role; kind = user })
      × (u.is_active ≡ true)
principal_of-IsLive id none p b e h = cc
principal_of-IsLive id (some u) p b e h = (u, refl, ground arith, ground arith)

module _ (J : Jwt) (sha256 : Text → String) (tokens : TokenService) (at : Moment) where
  by_token-ok :
      (token : J.Token) (claims : TokenClaims) (p : CurrentPrincipal) (b : Backend)
      → decode_token J tokens at.wall access token ≡ ok claims
      → (by_token J sha256 tokens at token b).0 ≡ ok p
      → ((TokenStore.is_revoked at.mono claims.jti b.token_store).0 ≡ false)
        × ((u : User) × (get_user? claims.subject b.db ≡ some u)
            × (p ≡ record { id = u.id; role = u.role; kind = user })
            × (u.is_active ≡ true))
  unfolding by_token
  by_token-ok token claims p b decoded h =
      elim (Bool-cases (TokenStore.is_revoked at.mono claims.jti b.token_store).0) [
        | inl revoked ↦ absurd (cc (rw (decoded, revoked, by_token) at h))
        | inr unrevoked ↦ (
          unrevoked,
          principal_of-IsLive claims.subject (get_user? claims.subject b.db) p
              (record b {
                token_store = (TokenStore.is_revoked at.mono claims.jti b.token_store).1;
              })
              refl (rw (decoded, unrevoked, by_token) at h),
        )
      ]

  -- A bearer token that is accepted decodes as an access token, is not revoked, and names an
  -- account that is there and active. The principal has the account's id and the role that the
  -- account has now, whatever role stands in the token.
  pub by_token_sound :
      (token : J.Token) (p : CurrentPrincipal) (b : Backend)
      → (by_token J sha256 tokens at token b).0 ≡ ok p
      → (claims : TokenClaims) × (decode_token J tokens at.wall access token ≡ ok claims)
        × ((TokenStore.is_revoked at.mono claims.jti b.token_store).0 ≡ false)
        × ((u : User) × (get_user? claims.subject b.db ≡ some u)
            × (p ≡ record { id = u.id; role = u.role; kind = user })
            × (u.is_active ≡ true))
  unfolding by_token
  by_token_sound token p b h = elim (Result-cases (decode_token J tokens at.wall access token)) [
    | inr (e, failed) ↦ absurd (cc (rw (failed, by_token) at h))
    | inl (claims, decoded) ↦
        let (unrevoked, live) = by_token-ok token claims p b decoded h in
        (claims, decoded, unrevoked, live)
  ]

  pub by_key-owned :
      (key : Text) (k : ApiKey) (u : User) (b : Backend)
      → get_by_hash (hash_api_key sha256 key) b.db ≡ some k
      → get_user? k.user_id b.db ≡ some u
      → (by_key J sha256 tokens at key b).0 ≡ (
          if k.is_active && u.is_active
          then ok (record { id = k.user_id; role = k.role; kind = api_key })
          else err invalid_api_key)
  unfolding by_key resolve_api_key
  by_key-owned key k u b found owner = rw (found, resolve_api_key) (ground (arith, owner))

  by_key_sound :
      (key : Text) (p : CurrentPrincipal) (b : Backend)
      → (by_key J sha256 tokens at key b).0 ≡ ok p
      → IsLive b p
  unfolding by_key resolve_api_key
  by_key_sound key p b h = elim (Option-cases (get_by_hash (hash_api_key sha256 key) b.db)) [
    | inl missing ↦ absurd (cc (rw (missing, resolve_api_key) at h))
    | inr (k, found) ↦ elim (Option-cases (get_user? k.user_id b.db)) [
      | inl gone ↦ absurd (ground (arith, gone, rw (found, resolve_api_key) at h))
      | inr (u, owner) ↦ (
        u,
        ground (arith, by_key-owned key k u b found owner),
        ground (arith, by_key-owned key k u b found owner),
      )
    ]
  ]

  -- However a request authenticates, the account that it then acts for is there and active: an
  -- account that is disabled or deleted has no access, by tokens or by keys, from then on.
  pub principal-IsLive :
      (credentials : Option J.Token) (x_api_key : Text) (p : CurrentPrincipal) (b : Backend)
      → (get_current_principal J sha256 tokens at credentials x_api_key b).0 ≡ ok p
      → IsLive b p
  unfolding get_current_principal
  principal-IsLive (some token) x_api_key p b h =
      let (claims, decoded, unrevoked, (u, found, same, active)) = by_token_sound token p b h in
      let own : p.id ≡ claims.subject =
        ap (λ (q : CurrentPrincipal). q.id) same ∙ get_user?-id claims.subject b.db u found in
      (u, ap (λ i. get_user? i b.db) own ∙ found, active)
  principal-IsLive none x_api_key p b h = elim (Bool-cases (x_api_key == [])) [
    | inl nothing ↦ absurd (cc (rw (nothing, get_current_principal) at h))
    | inr sent ↦ by_key_sound x_api_key p b (rw (sent, get_current_principal) at h)
  ]
