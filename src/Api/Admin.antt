-- ===== src/Api/Admin.antt =====
-- The endpoints of app/api/v1/admin.py. The answer is the account's row: what `UserOut` leaves out
-- of it is not modelled, and neither are the bounds that FastAPI puts on the query.
pub mod Laws
use cyber_threat_intelligenc.Prelude.{ℕ, String, Bool, Option, List}
use cyber_threat_intelligenc.Prelude.Text.{Text}
use cyber_threat_intelligenc.Errors.{Result, Exec, pure, lift, ◌>>=◌}
use cyber_threat_intelligenc.Security.Rbac.{Role, Permission, admin_manage}
use cyber_threat_intelligenc.Security.Tokens.{Jwt, TokenService}
use cyber_threat_intelligenc.Auth.Store.{User, Backend}
use cyber_threat_intelligenc.Auth.Login.{Moment}
use cyber_threat_intelligenc.Auth.Users
use cyber_threat_intelligenc.Auth.Principal.{CurrentPrincipal, get_current_principal, require}

-- One constructor for each endpoint, with what its path, query and body hold.
pub data Request : Type 0 where
  list_users : ℕ → ℕ → Request
  get_user : String → Request
  set_user_role : String → Role → Request
  set_user_active : String → Bool → Request

pub data Response : Type 0 where
  accounts : List User → Response
  account : User → Response

-- The handlers, for the principal that the dependency has found.
unfoldable pub handle : CurrentPrincipal → Request → Exec Backend Response
handle principal (list_users limit offset) = do
  users ← Users.list_users limit offset
  pure (accounts users)
handle principal (get_user user_id) = do user ← Users.get_user user_id; pure (account user)
handle principal (set_user_role user_id role) = do
  user ← Users.set_user_role principal.id user_id role
  pure (account user)
handle principal (set_user_active user_id is_active) = do
  user ← Users.set_user_active principal.id user_id is_active
  pure (account user)

module _ (J : Jwt) (sha256 : Text → String) (tokens : TokenService) (at : Moment) where
  -- `Depends(require(permission))`: FastAPI resolves `get_current_principal` once for a request.
  unfoldable pub authorized : Permission → Option J.Token → Text → Exec Backend CurrentPrincipal
  authorized permission credentials x_api_key = do
    principal ← get_current_principal J sha256 tokens at credentials x_api_key
    lift (require permission principal)

  unfoldable pub call : Option J.Token → Text → Request → Exec Backend Response
  unfolding authorized
  call credentials x_api_key request = do
    principal ← authorized admin_manage credentials x_api_key
    handle principal request
