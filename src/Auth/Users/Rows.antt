-- ===== src/Auth/Users/Rows.antt =====
-- The rows of the users' table under a change of one row and under a new row.
use cyber_threat_intelligenc.Prelude.{
  ℕ, ◌+◌, ◌≤◌, ◌≡◌, refl, ◌≢◌, String, Bool, none, some, List, [], ◌∷◌, ◌++◌, arith, map, count,
  find?, if◌then◌else◌, ◌==◌, string_eq,
}
use mathlib.Core.Path.{subst, sym}
use cyber_threat_intelligenc.Security.Rbac.{admin, role_value, role_eq}
use cyber_threat_intelligenc.Auth.Store.{
  User, AuditLog, Database, get_user?, count_active_with_role, has_active_role, update_user,
  add_user, audit_record,
}

abbrev pub is_admin : User → Bool
is_admin = has_active_role (role_value admin)

abbrev pub admins : List User → ℕ
admins = count is_admin

abbrev pub same_id : String → User → Bool
same_id id u = u.id == id

-- A row with the id of `u` occurs at most once.
abbrev pub NodupIds : List User → Type 0
NodupIds [] = Unit
NodupIds (u ∷ us) = (find? (same_id u.id) us ≡ none) × NodupIds us

abbrev pub changed : String → (User → User) → List User → List User
changed id f = map (λ (u : User). if u.id == id then f u else u)

changed_absent :
    (id : String) (f : User → User) (us : List User)
    → find? (same_id id) us ≡ none
    → changed id f us ≡ us
changed_absent id f [] h = refl
changed_absent id f (u ∷ us) h = ground (arith, changed_absent id f us)

-- What a change of the row with key `id` does to the number of active admins.
abbrev Counts : String → (User → User) → List User → User → Type 0
Counts id f us u =
    admins (changed id f us) + (if is_admin u then 1 else 0)
    ≡ admins us + (if is_admin (f u) then 1 else 0)

admins-changed_here :
    (f : User → User) (us : List User) (v u : User)
    → find? (same_id v.id) us ≡ none
    → find? (same_id v.id) (v ∷ us) ≡ some u
    → Counts v.id f (v ∷ us) u
admins-changed_here f us v u fresh h = rw (changed_absent v.id f us fresh) (ground arith)

admins-changed :
    (id : String) (f : User → User) (us : List User) (u : User)
    → NodupIds us
    → find? (same_id id) us ≡ some u
    → Counts id f us u
admins-changed id f [] u n h = cc
admins-changed id f (v ∷ us) u n h = elim (string_eq.dec v.id id) [
  | yes p ↦
      subst (λ k. find? (same_id k) (v ∷ us) ≡ some u → Counts k f (v ∷ us) u) p
        (admins-changed_here f us v u n.0) h
  | no q ↦ ground (arith, q, admins-changed id f us u n.1)
]

pub find?-same_id :
    (id : String) (us : List User) (u : User) → find? (same_id id) us ≡ some u → u.id ≡ id
find?-same_id id [] u h = cc
find?-same_id id (v ∷ us) u h = ground (arith, find?-same_id id us u)

pub get_user?-id : (id : String) (db : Database) (u : User) → get_user? id db ≡ some u → u.id ≡ id
unfolding get_user?
get_user?-id id db u h = find?-same_id id db.users u h

pub admins-update_user :
    (id : String) (f : User → User) (db : Database) (u : User)
    → NodupIds db.users
    → get_user? id db ≡ some u
    → count_active_with_role (role_value admin) (update_user u.id f db)
        + (if is_admin u then 1 else 0)
      ≡ count_active_with_role (role_value admin) db + (if is_admin (f u) then 1 else 0)
unfolding count_active_with_role update_user get_user?
admins-update_user id f db u n h =
    subst
      (λ k.
        admins (changed k f db.users) + (if is_admin u then 1 else 0)
        ≡ admins db.users + (if is_admin (f u) then 1 else 0))
      (sym (find?-same_id id db.users u h)) (admins-changed id f db.users u n h)

pub admins-audit_record :
    (e : AuditLog) (db : Database)
    → count_active_with_role (role_value admin) (audit_record e db)
      ≡ count_active_with_role (role_value admin) db
unfolding count_active_with_role audit_record
admins-audit_record e db = refl

-- The change leaves the key of a row alone.
abbrev pub KeepsId : (User → User) → Type 0
KeepsId f = (u : User) → (f u).id ≡ u.id

find?-changed :
    (j id : String) (f : User → User) (us : List User)
    → KeepsId f
    → find? (same_id j) us ≡ none
    → find? (same_id j) (changed id f us) ≡ none
find?-changed j id f [] keeps h = refl
find?-changed j id f (u ∷ us) keeps h = ground (arith, keeps u, find?-changed j id f us keeps)

find?-changed_self :
    (id : String) (f : User → User) (us : List User) (u : User)
    → KeepsId f
    → find? (same_id id) us ≡ some u
    → find? (same_id id) (changed id f us) ≡ some (f u)
find?-changed_self id f [] u keeps h = cc
find?-changed_self id f (v ∷ us) u keeps h =
    ground (arith, keeps v, find?-changed_self id f us u keeps)

pub get_user?-update_user :
    (id : String) (f : User → User) (db : Database) (u : User)
    → KeepsId f
    → get_user? id db ≡ some u
    → get_user? id (update_user u.id f db) ≡ some (f u)
unfolding get_user? update_user
get_user?-update_user id f db u keeps h =
    subst (λ k. find? (same_id id) (changed k f db.users) ≡ some (f u))
      (sym (find?-same_id id db.users u h)) (find?-changed_self id f db.users u keeps h)

changed-NodupIds :
    (id : String) (f : User → User) (us : List User)
    → KeepsId f
    → NodupIds us
    → NodupIds (changed id f us)
changed-NodupIds id f [] keeps n = tt
changed-NodupIds id f (u ∷ us) keeps n =
    let same : (if u.id == id then f u else u).id ≡ u.id = ground (arith, keeps u) in
    (
      subst (λ k. find? (same_id k) (changed id f us) ≡ none) (sym same)
          (find?-changed u.id id f us keeps n.0),
      changed-NodupIds id f us keeps n.1,
    )

pub update_user-NodupIds :
    (id : String) (f : User → User) (db : Database)
    → KeepsId f
    → NodupIds db.users
    → NodupIds (update_user id f db).users
unfolding update_user
update_user-NodupIds id f db keeps n = changed-NodupIds id f db.users keeps n

find?-append_one :
    (j : String) (us : List User) (u : User)
    → find? (same_id j) us ≡ none
    → u.id ≢ j
    → find? (same_id j) (us ++ u ∷ []) ≡ none
find?-append_one j [] u h ne = ground (arith, ne)
find?-append_one j (v ∷ us) u h ne = ground (arith, find?-append_one j us u)

append_one-NodupIds :
    (us : List User) (u : User)
    → find? (same_id u.id) us ≡ none
    → NodupIds us
    → NodupIds (us ++ u ∷ [])
append_one-NodupIds [] u fresh n = (refl, tt)
append_one-NodupIds (v ∷ us) u fresh n = (
  find?-append_one v.id us u n.0 (λ e. ground (arith, e, fresh)),
  append_one-NodupIds us u (ground arith) n.1,
)

pub add_user-NodupIds :
    (u : User) (db : Database)
    → get_user? u.id db ≡ none
    → NodupIds db.users
    → NodupIds (add_user u db).users
unfolding add_user get_user?
add_user-NodupIds u db fresh n = append_one-NodupIds db.users u fresh n

admins-append_one : (us : List User) (u : User) → admins us ≤ admins (us ++ u ∷ [])
admins-append_one [] u = omega arith
admins-append_one (v ∷ us) u = ground (arith, admins-append_one us u)

pub admins-add_user :
    (u : User) (db : Database)
    → count_active_with_role (role_value admin) db
      ≤ count_active_with_role (role_value admin) (add_user u db)
unfolding add_user count_active_with_role
admins-add_user u db = admins-append_one db.users u
