-- ===== src/Security/Rbac.antt =====
-- app/security/rbac.py. A set of permissions is the list of its members.
use cyber_threat_intelligenc.Prelude.{
  String, ◌≡◌, refl, Bool, true, false, Option, none, some, List, [], ◌∷◌, ◌++◌, if◌then◌else◌,
  ◌||◌, Eq, ◌==◌, contains, string_eq,
}

pub data Role : Type 0 where
  admin analyst viewer : Role

pub data Permission : Type 0 where
  ioc_read ioc_write enrich_run collector_run alert_read alert_manage report_generate admin_manage :
      Permission

Role-discrete : Discrete Role
Role-discrete = hlevel

instance unfoldable pub role_eq : Eq Role
unfolding Role-discrete
role_eq = record { dec = Role-discrete }

Permission-discrete : Discrete Permission
Permission-discrete = hlevel

instance unfoldable pub permission_eq : Eq Permission
unfolding Permission-discrete
permission_eq = record { dec = Permission-discrete }

-- The value of a member of the enumeration `Role`.
abbrev pub role_value : Role → String
role_value admin = "admin"
role_value analyst = "analyst"
role_value viewer = "viewer"

-- `Role(value)`, which raises `ValueError` for `none`.
unfoldable pub parse_role : String → Option Role
parse_role value =
    if value == "admin"
    then some admin
    else if value == "analyst"
    then some analyst
    else if value == "viewer"
    then some viewer
    else none

abbrev viewer_permissions : List Permission
viewer_permissions = ioc_read ∷ alert_read ∷ []

abbrev analyst_permissions : List Permission
analyst_permissions =
    viewer_permissions
    ++ (ioc_write ∷ enrich_run ∷ collector_run ∷ report_generate ∷ alert_manage ∷ [])

abbrev admin_permissions : List Permission
admin_permissions = analyst_permissions ++ (admin_manage ∷ [])

abbrev role_permissions : Role → List Permission
role_permissions viewer = viewer_permissions
role_permissions analyst = analyst_permissions
role_permissions admin = admin_permissions

unfoldable pub permissions_for : String → List Permission
unfolding parse_role
permissions_for role = elim (parse_role role) [ none ↦ [] | some r ↦ role_permissions r ]

unfoldable pub has_permission : String → Permission → Bool
unfolding permissions_for
has_permission role permission = contains (permissions_for role) permission

-- The independent description, for a role that is an admin's, an analyst's or a viewer's.
abbrev meant : Bool → Bool → Bool → Permission → Bool
meant a n v ioc_read = a || n || v
meant a n v alert_read = a || n || v
meant a n v admin_manage = a
meant a n v p = a || n

abbrev pub allowed : String → Permission → Bool
allowed role p = meant (role == "admin") (role == "analyst") (role == "viewer") p

granted :
    (a n v : Bool) (p : Permission)
    → contains
        (elim (if a
          then some admin
          else if n
          then some analyst
          else if v
          then some viewer
          else none) [ none ↦ [] | some r ↦ role_permissions r ])
        p
      ≡ meant a n v p
unfolding permission_eq
granted true n v ioc_read = refl
granted true n v p = refl
granted false true v ioc_read = refl
granted false true v p = refl
granted false false true ioc_read = refl
granted false false true p = refl
granted false false false ioc_read = refl
granted false false false p = refl

-- Of any role string that may stand in the database: reading is for "admin", "analyst" and
-- "viewer", user administration for "admin" alone, all else for "admin" and "analyst", and any other
-- string has nothing.
pub has_permission-eq-allowed :
    (role : String) (p : Permission) → has_permission role p ≡ allowed role p
unfolding has_permission permissions_for parse_role
has_permission-eq-allowed role p =
    granted (role == "admin") (role == "analyst") (role == "viewer") p
