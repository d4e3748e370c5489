-- ===== src/Api/Account.antt =====
-- The endpoints of app/api/v1/auth.py with which a principal looks at its account and keeps its API
-- keys. The answer is the row: what the response schemas leave out of it is not modelled.
pub mod Laws
use cyber_threat_intelligenc.Prelude.{String, Option, List}
use cyber_threat_intelligenc.Prelude.Text.{Text}
use cyber_threat_intelligenc.Errors.{Result, Exec, pure, ◌>>=◌, ◌>>◌}
use cyber_threat_intelligenc.Security.Tokens.{Jwt, TokenService}
use cyber_threat_intelligenc.Auth.Store.{User, ApiKey, Backend}
use cyber_threat_intelligenc.Auth.Login.{Moment}
use cyber_threat_intelligenc.Auth.Keys
use cyber_threat_intelligenc.Auth.Users.{get_user}
use cyber_threat_intelligenc.Auth.Principal.{CurrentPrincipal, get_current_principal}

-- One constructor for each endpoint, with what its path and body hold.
pub data Request : Type 0 where
  me : Request
  create_api_key : String → Request
  list_api_keys : Request
  get_api_key : String → Request
  revoke_api_key : String → Request

pub data Response : Type 0 where
  account : User → Response
  created : ApiKey → Text → Response
  keys : List ApiKey → Response
  key : ApiKey → Response
  no_content : Response

module _ (sha256 : Text → String) where
  -- `id` is the key of a new row, and `token` what `secrets.token_urlsafe(32)` gives.
  unfoldable pub handle : String → Text → CurrentPrincipal → Request → Exec Backend Response
  handle id token principal me = do user ← get_user principal.id; pure (account user)
  handle id token principal (create_api_key name) = do
    made ← Keys.create_api_key sha256 id token principal.id name
    pure (created made.0 made.1.raw)
  handle id token principal list_api_keys = do
    found ← Keys.list_api_keys sha256 principal.id
    pure (keys found)
  handle id token principal (get_api_key key_id) = do
    found ← Keys.get_api_key sha256 principal.id key_id
    pure (key found)
  handle id token principal (revoke_api_key key_id) = do
    Keys.revoke_api_key sha256 principal.id key_id
    pure no_content
