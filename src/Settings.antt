-- ===== src/Settings.antt =====
-- The part of `Settings` of app/config/settings.py that decides whether the application starts.
pub mod Laws
use cyber_threat_intelligenc.Prelude.{
  ℕ, Bool, true, false, not, ◌&&◌, ◌||◌, String, string_eq, Option, none, some, List, [], ◌∷◌, ◌++◌,
  length, ltb, contains, if◌then◌else◌, ◌==◌,
}
use cyber_threat_intelligenc.Prelude.Text.{Text, text_eq, codes}
use cyber_threat_intelligenc.Security.Rbac.{parse_role}
use cyber_threat_intelligenc.Api.ClientIp.{hops}

pub data AppEnv : Type 0 where
  development staging production : AppEnv

pub record Settings : Type 0 where
  pub app_env : AppEnv
  pub app_debug : Bool
  pub master_encryption_key : Text
  pub jwt_secret_key : Text
  pub registration_default_role : String
  pub allow_open_registration : Bool
  pub cors_origins : List Text
  pub expose_api_docs : Bool

abbrev pub is_env_production : AppEnv → Bool
is_env_production development = false
is_env_production staging = false
is_env_production production = true

abbrev pub is_production : Settings → Bool
is_production s = is_env_production s.app_env

unfoldable pub docs_enabled : Settings → Bool
docs_enabled s = s.expose_api_docs && not (is_production s)

-- The split at commas is the one of `X-Forwarded-For`.
unfoldable pub master_encryption_keys : Settings → List Text
master_encryption_keys s = hops s.master_encryption_key

-- What `validate_runtime` puts into the message of its `RuntimeError`.
pub data Unsafe : Type 0 where
  no_encryption_key weak_jwt_secret debug_mode cors_wildcard writable_registration : Unsafe

abbrev pub note : Bool → Unsafe → List Unsafe
note b reason = if b then reason ∷ [] else []

unfoldable pub missing : Settings → List Unsafe
missing s =
    note (s.master_encryption_key == []) no_encryption_key
    ++ (note (s.jwt_secret_key == [] || ltb (length s.jwt_secret_key) 32) weak_jwt_secret
        ++ (note s.app_debug debug_mode
            ++ (note (contains s.cors_origins (codes "*")) cors_wildcard
                ++ note (s.allow_open_registration && not (s.registration_default_role == "viewer"))
                    writable_registration)))

-- `if missing: raise RuntimeError(...)`
abbrev pub refuse : List Unsafe → Option (List Unsafe)
refuse [] = none
refuse (reason ∷ reasons) = some (reason ∷ reasons)

-- `none` when it returns.
unfoldable pub validate_runtime : Settings → Option (List Unsafe)
unfolding missing
validate_runtime s = if not (is_production s) then none else refuse (missing s)
