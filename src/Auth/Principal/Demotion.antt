-- ===== src/Auth/Principal/Demotion.antt =====
-- What a change of role means for the API keys of the account.
use cyber_threat_intelligenc.Prelude.{
  ◌≡◌, refl, ◌∙◌, String, true, some, arith, string_eq, Option-cases, inl, inr,
}
use cyber_threat_intelligenc.Prelude.Text.{Text}
use cyber_threat_intelligenc.Errors.{ok, is_ok}
use cyber_threat_intelligenc.Security.Rbac.{
  Role, admin_manage, has_permission, role_eq, permission_eq,
}
use cyber_threat_intelligenc.Security.Tokens.{Jwt, TokenService}
use cyber_threat_intelligenc.Auth.Store.{
  User, ApiKey, Backend, Database, get_user?, get_by_hash, update_user, audit_record, AuditLog,
}
use cyber_threat_intelligenc.Auth.Users.{set_user_role, with_role}
use cyber_threat_intelligenc.Auth.Users.Rows.{get_user?-update_user}
use cyber_threat_intelligenc.Auth.Login.{Moment}
use cyber_threat_intelligenc.Auth.Keys.{hash_api_key}
use cyber_threat_intelligenc.Auth.Principal.{CurrentPrincipal, api_key, by_key, require}
use cyber_threat_intelligenc.Auth.Principal.Laws.{by_key-owned}

get_user?-audit_record :
    (id : String) (e : AuditLog) (db : Database)
    → get_user? id (audit_record e db) ≡ get_user? id db
unfolding get_user? audit_record
get_user?-audit_record id e db = refl

get_by_hash-audit_record :
    (h : String) (e : AuditLog) (db : Database)
    → get_by_hash h (audit_record e db) ≡ get_by_hash h db
unfolding get_by_hash audit_record
get_by_hash-audit_record h e db = refl

get_by_hash-update_user :
    (h id : String) (f : User → User) (db : Database)
    → get_by_hash h (update_user id f db) ≡ get_by_hash h db
unfolding get_by_hash update_user
get_by_hash-update_user h id f db = refl

set_user_role-user :
    (actor id : String) (role : Role) (u : User) (b : Backend)
    → get_user? id b.db ≡ some u
    → is_ok (set_user_role actor id role b).0 ≡ true
    → get_user? id (set_user_role actor id role b).1.db ≡ some (with_role role u)
unfolding set_user_role
set_user_role-user actor id role u b found success =
    let success' = rw (found, set_user_role) at success in
    let written = get_user?-update_user id (with_role role) b.db u (λ v. refl) found in
    rw (found, set_user_role) (grind (arith, success', written, get_user?-audit_record))

set_user_role-keys :
    (actor id hash : String) (role : Role) (b : Backend)
    → get_by_hash hash (set_user_role actor id role b).1.db ≡ get_by_hash hash b.db
unfolding set_user_role
set_user_role-keys actor id hash role b = elim (Option-cases (get_user? id b.db)) [
  | inl missing ↦ rw (missing, set_user_role) refl
  | inr (u, found) ↦
      rw (found, set_user_role) (grind (arith, get_by_hash-audit_record, get_by_hash-update_user))
]

admin_may_manage : has_permission "admin" admin_manage ≡ true
unfolding has_permission permission_eq string_eq
admin_may_manage = refl

module _ (J : Jwt) (sha256 : Text → String) (tokens : TokenService) (at : Moment) where
  -- An API key keeps the role that its owner had when it was made: after an admin has been given
  -- another role, their admin key still passes the check for user administration.
  pub demoted_key_keeps_rights :
      (actor : String) (role : Role) (key : Text) (k : ApiKey) (u : User) (b : Backend)
      → get_by_hash (hash_api_key sha256 key) b.db ≡ some k
      → get_user? k.user_id b.db ≡ some u
      → k.is_active ≡ true
      → u.is_active ≡ true
      → k.role ≡ "admin"
      → is_ok (set_user_role actor k.user_id role b).0 ≡ true
      → let b' = (set_user_role actor k.user_id role b).1 in
        let p : CurrentPrincipal = record { id = k.user_id; role = "admin"; kind = api_key } in
        (get_user? k.user_id b'.db ≡ some (with_role role u))
        × ((by_key J sha256 tokens at key b').0 ≡ ok p)
        × (require admin_manage p ≡ ok p)
  unfolding require
  demoted_key_keeps_rights actor role key k u b found owner live active was_admin success =
      let b' = (set_user_role actor k.user_id role b).1 in
      let now = set_user_role-user actor k.user_id role u b owner success in
      let still = set_user_role-keys actor k.user_id (hash_api_key sha256 key) role b ∙ found in
      (
        now,
        by_key-owned J sha256 tokens at key k (with_role role u) b' still now
            ∙ ground (arith, live, active, was_admin),
        rw admin_may_manage refl,
      )
