-- ===== src/Auth/Users.antt =====
-- Accounts: registration and administration in `AuthService`.
pub mod Rows
pub mod Admins
use cyber_threat_intelligenc.Prelude.{
  ℕ, String, Bool, true, false, not, ◌&&◌, Option, none, some, List, [], ◌∷◌, if◌then◌else◌, ◌==◌,
  string_eq, leb,
}
use cyber_threat_intelligenc.Prelude.Text.{Text, lower}
use cyber_threat_intelligenc.Errors.{
  AppError, permission_denied, conflict, not_found, validation_error, Result, ok, err, Exec, pure,
  raise, gets, raise_if, ◌>>=◌, ◌>>◌,
}
use cyber_threat_intelligenc.Security.Rbac.{Role, admin, viewer, role_value, parse_role, role_eq}
use cyber_threat_intelligenc.Auth.Store.{
  User, AuditLog, Backend, get_user?, email_exists, list_all, count_active_with_role, update_user,
  add_user, audit_record, on_db,
}

abbrev pub audit : String → Option String → List (String × String) → AuditLog
audit action user_id detail = record {
  action = action;
  user_id = user_id;
  ip_address = none;
  detail = detail;
}

abbrev or_raise {ℓ} : {A S : Type ℓ} → Option A → AppError → Exec S A
or_raise none e = raise e
or_raise (some a) e = pure a

abbrev pub default_role : Option Role → Role
default_role none = viewer
default_role (some r) = r

abbrev pub new_user : String → Text → String → Role → User
new_user id email password_hash role = record {
  id = id;
  email = email;
  password_hash = password_hash;
  role = role_value role;
  is_active = true;
}

-- `register` with `role=None`, as its endpoint calls it. `hash` is the password hasher, `id` the
-- new row's key; the two settings come first.
unfoldable pub register :
    Bool → String → (String → String) → String → Text → String → Exec Backend User
register allow_open_registration registration_default_role hash id address password = do
  raise_if (not allow_open_registration) (permission_denied "Open registration is disabled.")
  let email = lower address
  raise_if (← gets (λ b. email_exists email b.db))
      (conflict "A user with this email already exists.")
  let user = new_user id email (hash password) (default_role (parse_role registration_default_role))
  on_db (add_user user)
  on_db (audit_record (audit "user.register" (some id) []))
  pure user

unfoldable pub get_user : String → Exec Backend User
get_user user_id = do
  found ← gets (λ b. get_user? user_id b.db)
  or_raise found (not_found "User not found.")

unfoldable pub list_users : ℕ → ℕ → Exec Backend (List User)
list_users limit offset = gets (λ b. list_all limit offset b.db)

abbrev pub with_role : Role → User → User
with_role role u = record u { role = role_value role }

unfoldable pub set_user_role : String → String → Role → Exec Backend User
unfolding get_user
set_user_role actor_id user_id role = do
  user ← get_user user_id
  raise_if (user.id == actor_id && not (role == admin))
      (validation_error "You cannot remove your own admin role.")
  admins ← gets (λ b. count_active_with_role (role_value admin) b.db)
  raise_if (user.role == role_value admin && (not (role == admin) && leb admins 1))
      (validation_error "Refusing to demote the last active admin.")
  on_db (update_user user.id (with_role role))
  on_db (
      audit_record (
        audit "user.role_change" (some actor_id)
          (("target", user_id) ∷ ("role", role_value role) ∷ [])))
  pure (with_role role user)

abbrev pub with_active : Bool → User → User
with_active is_active u = record u { is_active = is_active }

unfoldable pub set_user_active : String → String → Bool → Exec Backend User
unfolding get_user
set_user_active actor_id user_id is_active = do
  user ← get_user user_id
  raise_if (user.id == actor_id && not is_active)
      (validation_error "You cannot deactivate your own account.")
  admins ← gets (λ b. count_active_with_role (role_value admin) b.db)
  raise_if (not is_active && (user.role == role_value admin && leb admins 1))
      (validation_error "Refusing to deactivate the last active admin.")
  on_db (update_user user.id (with_active is_active))
  on_db (
      audit_record (
        audit (if is_active then "user.activate" else "user.deactivate") (some actor_id)
          (("target", user_id) ∷ [])))
  pure (with_active is_active user)
