-- ===== src/Auth/Principal.antt =====
-- `get_current_principal` and `require` of app/api/deps.py.
pub mod Laws
pub mod Demotion
use cyber_threat_intelligenc.Prelude.{
  ℕ, String, Bool, true, false, not, Option, none, some, List, [], ◌∷◌, if◌then◌else◌, ◌==◌,
}
use cyber_threat_intelligenc.Prelude.Text.{Text, text_eq}
use cyber_threat_intelligenc.Errors.{
  AppError, authentication_error, permission_denied, not_found, Result, ok, err, Exec, pure, raise,
  lift, gets, raise_if, ◌>>=◌, ◌>>◌,
}
use cyber_threat_intelligenc.Security.Rbac.{Permission, has_permission}
use cyber_threat_intelligenc.Security.Tokens.{Jwt, TokenService, access, decode_token}
use cyber_threat_intelligenc.Auth.Store.{User, Backend, get_user?}
use cyber_threat_intelligenc.Auth.Login.{Moment, is_revoked}
use cyber_threat_intelligenc.Auth.Keys.{resolve_api_key}

pub data Kind : Type 0 where
  user api_key : Kind

pub record CurrentPrincipal : Type 0 where
  pub id : String
  pub role : String
  pub kind : Kind

-- `auth.get_user` with its `NotFoundError` turned into an `AuthenticationError`, and the test of
-- `is_active`.
abbrev pub principal_of : Option User → Exec Backend CurrentPrincipal
principal_of none = raise (authentication_error "This account no longer exists.")
principal_of (some u) = do
  raise_if (not u.is_active) (authentication_error "This account is disabled.")
  pure (record { id = u.id; role = u.role; kind = user })

module _ (J : Jwt) (sha256 : Text → String) (tokens : TokenService) (at : Moment) where
  unfoldable pub by_token : J.Token → Exec Backend CurrentPrincipal
  by_token token = do
    claims ← lift (decode_token J tokens at.wall access token)
    revoked ← is_revoked at.mono claims.jti
    raise_if revoked (authentication_error "Token has been revoked.")
    found ← gets (λ b. get_user? claims.subject b.db)
    principal_of found

  unfoldable pub by_key : Text → Exec Backend CurrentPrincipal
  by_key key = do
    found ← resolve_api_key sha256 at.wall key
    pure (record { id = found.user_id; role = found.role; kind = api_key })

  -- The bearer token of the request, if any, and the header `X-API-Key`, empty if not sent.
  unfoldable pub get_current_principal : Option J.Token → Text → Exec Backend CurrentPrincipal
  unfolding by_token by_key
  get_current_principal (some token) x_api_key = by_token token
  get_current_principal none x_api_key =
      if x_api_key == []
      then raise (authentication_error "Authentication required (bearer token or X-API-Key).")
      else by_key x_api_key

-- The dependency that `require(permission)` makes; the message names the role.
unfoldable pub require : Permission → CurrentPrincipal → Result CurrentPrincipal
require permission principal =
    if has_permission principal.role permission
    then ok principal
    else err (permission_denied principal.role)
