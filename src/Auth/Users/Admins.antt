-- ===== src/Auth/Users/Admins.antt =====
-- The deployment keeps an administrator.
use cyber_threat_intelligenc.Prelude.{
  ℕ, ◌<◌, ◌≡◌, refl, ◌≢◌, String, Bool, false, none, some, List, [], ◌∷◌, arith, string_eq,
  Option-cases, inl, inr,
}
use cyber_threat_intelligenc.Prelude.Text.{Text, lower}
use cyber_threat_intelligenc.Errors.{validation_error, Result, ok, err}
use cyber_threat_intelligenc.Security.Rbac.{Role, parse_role, admin, role_value, role_eq}
use cyber_threat_intelligenc.Auth.Store.{
  User, Backend, get_user?, count_active_with_role, audit_record, unit_of_work, finish,
}
use cyber_threat_intelligenc.Auth.Users.Rows.{
  get_user?-id, NodupIds, admins-update_user, update_user-NodupIds, add_user-NodupIds,
  admins-add_user,
}
use cyber_threat_intelligenc.Auth.Users.{
  register, new_user, default_role, set_user_role, set_user_active, with_role, with_active,
}

abbrev pub active_admins : Backend → ℕ
active_admins b = count_active_with_role (role_value admin) b.db

-- The keys are unique and there is an active admin.
abbrev pub IsAdministered : Backend → Type 0
IsAdministered b = NodupIds b.db.users × (0 < active_admins b)

set_user_role-IsAdministered :
    (actor id : String) (role : Role) (b : Backend)
    → IsAdministered b
    → IsAdministered (set_user_role actor id role b).1
unfolding set_user_role role_eq audit_record count_active_with_role
set_user_role-IsAdministered actor id role b (n, h) = elim (Option-cases (get_user? id b.db)) [
  | inl missing ↦ rw (missing, set_user_role) (n, h)
  | inr (u, found) ↦
      rw (found, set_user_role)
        (ground (
          arith,
          admins-update_user id (with_role role) b.db u n found,
          update_user-NodupIds u.id (with_role role) b.db (λ v. refl) n,
        ))
]

set_user_active-IsAdministered :
    (actor id : String) (is_active : Bool) (b : Backend)
    → IsAdministered b
    → IsAdministered (set_user_active actor id is_active b).1
unfolding set_user_active audit_record count_active_with_role
set_user_active-IsAdministered actor id is_active b (n, h) =
    elim (Option-cases (get_user? id b.db)) [
      | inl missing ↦ rw (missing, set_user_active) (n, h)
      | inr (u, found) ↦
          rw (found, set_user_active)
            (ground (
              arith,
              admins-update_user id (with_active is_active) b.db u n found,
              update_user-NodupIds u.id (with_active is_active) b.db (λ v. refl) n,
            ))
    ]

-- What changes accounts, each inside the unit of work of its request.
pub data Op : Type 0 where
  registering : Bool → String → (String → String) → String → Text → String → Op
  changing_role : String → String → Role → Op
  changing_active : String → String → Bool → Op

unfoldable pub step : Op → Backend → Backend
unfolding unit_of_work
step (registering enabled default hash id email password) b =
    (unit_of_work (register enabled default hash id email password) b).1
step (changing_role actor id role) b = (unit_of_work (set_user_role actor id role) b).1
step (changing_active actor id is_active) b =
    (unit_of_work (set_user_active actor id is_active) b).1

unfoldable pub run : List Op → Backend → Backend
run [] b = b
run (op ∷ ops) b = run ops (step op b)

-- Each new row has a key that no row has yet.
abbrev pub FreshIds : List Op → Backend → Type 0
FreshIds [] b = Unit
FreshIds (registering enabled default hash id email password ∷ ops) b =
    (get_user? id b.db ≡ none)
    × FreshIds ops (step (registering enabled default hash id email password) b)
FreshIds (op ∷ ops) b = FreshIds ops (step op b)

finish-IsAdministered :
    {A : Type 0} (before : Backend) (r : Result A) (after : Backend)
    → IsAdministered before
    → IsAdministered after
    → IsAdministered (finish before (r, after)).1
finish-IsAdministered before (ok a) after h h' = h'
finish-IsAdministered before (err e) after h h' = h

register-IsAdministered :
    (enabled : Bool) (default : String) (hash : String → String) (id : String) (email : Text)
    (password : String) (b : Backend)
    → get_user? id b.db ≡ none
    → IsAdministered b
    → IsAdministered (register enabled default hash id email password b).1
unfolding register audit_record count_active_with_role
register-IsAdministered enabled default hash id email password b fresh (n, h) =
    let u = new_user id (lower email) (hash password) (default_role (parse_role default)) in
    ground (arith, add_user-NodupIds u b.db fresh n, admins-add_user u b.db)

step-IsAdministered :
    (op : Op) (ops : List Op) (b : Backend)
    → FreshIds (op ∷ ops) b
    → IsAdministered b
    → IsAdministered (step op b) × FreshIds ops (step op b)
unfolding step
step-IsAdministered (registering enabled default hash id email password) ops b (fresh, rest) h =
    let (r, after) = register enabled default hash id email password b in
    (
      finish-IsAdministered b r after h
          (register-IsAdministered enabled default hash id email password b fresh h),
      rest,
    )
step-IsAdministered (changing_role actor id role) ops b rest h =
    let (r, after) = set_user_role actor id role b in
    (finish-IsAdministered b r after h (set_user_role-IsAdministered actor id role b h), rest)
step-IsAdministered (changing_active actor id is_active) ops b rest h =
    let (r, after) = set_user_active actor id is_active b in
    (
      finish-IsAdministered b r after h (set_user_active-IsAdministered actor id is_active b h),
      rest,
    )

-- From accounts with unique keys and at least one active admin, whoever registers or changes which
-- roles and accounts in which order, refused or not, the keys stay unique and an active admin
-- remains; the keys of new rows are taken to be new.
pub run-IsAdministered :
    (ops : List Op) (b : Backend) → FreshIds ops b → IsAdministered b → IsAdministered (run ops b)
unfolding run
run-IsAdministered [] b fresh h = h
run-IsAdministered (op ∷ ops) b fresh h =
    let (kept, rest) = step-IsAdministered op ops b fresh h in
    run-IsAdministered ops (step op b) rest kept

-- An admin cannot end their own admin rights: neither call succeeds on the caller's own account.
pub no_self_demotion :
    (id : String) (role : Role) (u : User) (b : Backend)
    → get_user? id b.db ≡ some u
    → role ≢ admin
    → (set_user_role id id role b
        ≡ (err (validation_error "You cannot remove your own admin role."), b))
      × (set_user_active id id false b
          ≡ (err (validation_error "You cannot deactivate your own account."), b))
unfolding set_user_role set_user_active role_eq
no_self_demotion id role u b found ne =
    let own = get_user?-id id b.db u found in
    (
      rw (found, set_user_role) (ground (arith, own, ne)),
      rw (found, set_user_active) (ground (arith, own)),
    )
