-- ===== src/Auth/Store.antt =====
-- The rows and queries of app/models and app/repositories that authentication uses. A table is
-- the list of its rows in the order of their creation. An e-mail address is unique in its table.
use cyber_threat_intelligenc.Prelude.{
  ℕ, String, Bool, ◌&&◌, Option, List, [], ◌∷◌, ◌++◌, map, if◌then◌else◌, ◌==◌, string_eq, find?,
  count, keep, is_some, drop, take,
}
use cyber_threat_intelligenc.Prelude.Text.{Text, text_eq, lower}
use cyber_threat_intelligenc.Errors.{Result, ok, err, Exec}
use cyber_threat_intelligenc.Security.Throttle.{InMemoryLoginThrottle}
use cyber_threat_intelligenc.Security.TokenStore.{TokenStore}

pub record User : Type 0 where
  pub id : String
  pub email : Text
  pub password_hash : String
  pub role : String
  pub is_active : Bool

pub record ApiKey : Type 0 where
  pub id : String
  pub user_id : String
  pub name : String
  pub key_hash : String
  pub prefix : Text
  pub role : String
  pub is_active : Bool
  pub last_used_at : Option ℕ

pub record AuditLog : Type 0 where
  pub action : String
  pub user_id : Option String
  pub ip_address : Option String
  pub detail : List (String × String)

pub record Database : Type 0 where
  pub users : List User
  pub api_keys : List ApiKey
  pub audit_logs : List AuditLog

-- What the service reaches: the request's session, and two stores that live in the process.
pub record Backend : Type 0 where
  pub db : Database
  pub token_store : TokenStore
  pub throttle : InMemoryLoginThrottle

-- `BaseRepository.get` of the users
unfoldable pub get_user? : String → Database → Option User
get_user? id db = find? (λ (u : User). u.id == id) db.users

unfoldable pub get_by_email : Text → Database → Option User
get_by_email email db = find? (λ (u : User). u.email == lower email) db.users

unfoldable pub email_exists : Text → Database → Bool
unfolding get_by_email
email_exists email db = is_some (get_by_email email db)

unfoldable pub list_all : ℕ → ℕ → Database → List User
list_all limit offset db = take limit (drop offset db.users)

abbrev pub has_active_role : String → User → Bool
has_active_role role u = u.role == role && u.is_active

unfoldable pub count_active_with_role : String → Database → ℕ
count_active_with_role role db = count (has_active_role role) db.users

-- Writes to the columns of one row.
unfoldable pub update_user : String → (User → User) → Database → Database
update_user id f db = record db {
  users = map (λ (u : User). if u.id == id then f u else u) db.users;
}

unfoldable pub add_user : User → Database → Database
add_user u db = record db { users = db.users ++ u ∷ [] }

unfoldable pub get_by_hash : String → Database → Option ApiKey
get_by_hash key_hash db = find? (λ (k : ApiKey). k.key_hash == key_hash && k.is_active) db.api_keys

unfoldable pub list_for_user : String → Database → List ApiKey
list_for_user user_id db = keep (λ (k : ApiKey). k.user_id == user_id) db.api_keys

unfoldable pub get_for_user : String → String → Database → Option ApiKey
get_for_user key_id user_id db =
    find? (λ (k : ApiKey). k.id == key_id && k.user_id == user_id) db.api_keys

unfoldable pub update_key : String → (ApiKey → ApiKey) → Database → Database
update_key id f db = record db {
  api_keys = map (λ (k : ApiKey). if k.id == id then f k else k) db.api_keys;
}

unfoldable pub add_key : ApiKey → Database → Database
add_key k db = record db { api_keys = db.api_keys ++ k ∷ [] }

-- `AuditRepository.record`
unfoldable pub audit_record : AuditLog → Database → Database
audit_record entry db = record db { audit_logs = db.audit_logs ++ entry ∷ [] }

-- A change of the session's rows.
abbrev pub on_db : (Database → Database) → Exec Backend (Unit {0})
on_db f b = (ok tt, record b { db = f b.db })

-- What `get_session` does with the rows that a request has written: committed when the endpoint
-- returns, rolled back when it raises. The token store and the throttle are not part of it.
abbrev pub finish : {A : Type 0} → Backend → Result A × Backend → Result A × Backend
finish before (ok a, after) = (ok a, after)
finish before (err e, after) = (err e, record after { db = before.db })

unfoldable pub unit_of_work : {A : Type 0} → Exec Backend A → Exec Backend A
unit_of_work m b = finish b (m b)
