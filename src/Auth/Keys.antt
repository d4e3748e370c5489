-- ===== src/Auth/Keys.antt =====
-- API keys: app/security/api_keys.py and the key methods of `AuthService`. SHA-256 and the random
-- token are parameters.
use cyber_threat_intelligenc.Prelude.{
  ℕ, Bool, String, true, false, Option, none, some, List, [], ◌∷◌, ◌++◌, take, if◌then◌else◌, ◌==◌,
  string_eq,
}
use cyber_threat_intelligenc.Prelude.Text.{Text, codes, strip}
use cyber_threat_intelligenc.Errors.{
  AppError, invalid_api_key, not_found, Exec, pure, raise, gets, ◌>>=◌, ◌>>◌,
}
use cyber_threat_intelligenc.Auth.Store.{
  User, ApiKey, Backend, get_user?, get_by_hash, list_for_user, get_for_user, update_key, add_key,
  audit_record, on_db,
}
use cyber_threat_intelligenc.Auth.Users.{audit, get_user}

pub record GeneratedApiKey : Type 0 where
  pub raw : Text
  pub prefix : Text
  pub key_hash : String

abbrev pub key_prefix : Text → Text
key_prefix raw = take 12 raw

module _ (sha256 : Text → String) where
  unfoldable pub hash_api_key : Text → String
  hash_api_key raw = sha256 (strip raw)

  unfoldable pub verify_api_key : Text → String → Bool
  unfolding hash_api_key
  verify_api_key raw stored_hash = hash_api_key raw == stored_hash

  -- `token` is what `secrets.token_urlsafe(32)` gives.
  unfoldable pub generate_api_key : Text → GeneratedApiKey
  unfolding hash_api_key
  generate_api_key token =
      let raw : Text = codes "tip_" ++ token in
      record { raw = raw; prefix = key_prefix raw; key_hash = hash_api_key raw }

  -- The role of the key is the role that its owner has now.
  abbrev pub key_of : String → User → String → GeneratedApiKey → ApiKey
  key_of id user name generated = record {
    id = id;
    user_id = user.id;
    name = name;
    key_hash = generated.key_hash;
    prefix = generated.prefix;
    role = user.role;
    is_active = true;
    last_used_at = none;
  }

  unfoldable pub create_api_key :
      String → Text → String → String → Exec Backend (ApiKey × GeneratedApiKey)
  unfolding get_user
  create_api_key id token user_id name = do
    user ← get_user user_id
    let generated = generate_api_key token
    let created = key_of id user name generated
    on_db (add_key created)
    on_db (audit_record (audit "apikey.create" (some user.id) (("name", name) ∷ [])))
    pure (created, generated)

  unfoldable pub list_api_keys : String → Exec Backend (List ApiKey)
  list_api_keys user_id = gets (λ b. list_for_user user_id b.db)

  abbrev found_or_raise : Option ApiKey → AppError → Exec Backend ApiKey
  found_or_raise none e = raise e
  found_or_raise (some k) e = pure k

  unfoldable pub get_api_key : String → String → Exec Backend ApiKey
  get_api_key user_id key_id = do
    found ← gets (λ b. get_for_user key_id user_id b.db)
    found_or_raise found (not_found "API key not found.")

  unfoldable pub revoke_api_key : String → String → Exec Backend (Unit {0})
  revoke_api_key user_id key_id = do
    found ← gets (λ b. get_for_user key_id user_id b.db)
    key ← found_or_raise found (not_found "API key not found.")
    on_db (update_key key.id (λ k. record k { is_active = false }))
    on_db (audit_record (audit "apikey.revoke" (some user_id) (("id", key_id) ∷ [])))

  abbrev pub live_key : Option ApiKey → Exec Backend ApiKey
  live_key none = raise invalid_api_key
  live_key (some k) = if k.is_active then pure k else raise invalid_api_key

  abbrev pub live_owner : Option User → Exec Backend User
  live_owner none = raise invalid_api_key
  live_owner (some u) = if u.is_active then pure u else raise invalid_api_key

  unfoldable pub resolve_api_key : ℕ → Text → Exec Backend ApiKey
  unfolding hash_api_key
  resolve_api_key now raw_key = do
    found ← gets (λ b. get_by_hash (hash_api_key raw_key) b.db)
    key ← live_key found
    owner ← gets (λ b. get_user? key.user_id b.db)
    live_owner owner
    on_db (update_key key.id (λ k. record k { last_used_at = some now }))
    pure (record key { last_used_at = some now })
