-- ===== src/Api/Account/Laws.antt =====
-- Whose keys a principal reaches.
use cyber_threat_intelligenc.Prelude.{
  ◌≡◌, refl, String, Bool, false, not, none, some, List, [], ◌∷◌, ◌++◌, keep, map, find?, arith,
  Option-cases, inl, inr, if◌then◌else◌, ◌==◌, ◌&&◌, string_eq,
}
use mathlib.Core.Path.{subst}
use cyber_threat_intelligenc.Prelude.Text.{Text}
use cyber_threat_intelligenc.Errors.{Result, ok, err, pure, continue}
use cyber_threat_intelligenc.Auth.Store.{
  ApiKey, Backend, get_user?, get_for_user, update_key, add_key, audit_record,
}
use cyber_threat_intelligenc.Auth.Users.{get_user}
use cyber_threat_intelligenc.Auth.Users.Rows.{get_user?-id}
use cyber_threat_intelligenc.Auth.Keys
use cyber_threat_intelligenc.Auth.Principal.{CurrentPrincipal}
use cyber_threat_intelligenc.Api.Account.{
  Request, Response, account, created, key, no_content, me, create_api_key, list_api_keys,
  get_api_key, revoke_api_key, handle,
}

-- A row with the id of `k` occurs at most once.
abbrev pub NodupKeys : List ApiKey → Type 0
NodupKeys [] = Unit
NodupKeys (k ∷ ks) = (find? (λ (j : ApiKey). j.id == k.id) ks ≡ none) × NodupKeys ks

abbrev foreign : String → ApiKey → Bool
foreign owner k = not (k.user_id == owner)

-- The keys that are not of the account `owner`, in the order of the table.
abbrev pub keys_of_others : String → List ApiKey → List ApiKey
keys_of_others owner = keep (foreign owner)

abbrev revoked : String → List ApiKey → List ApiKey
revoked id = map (λ (k : ApiKey). if k.id == id then record k { is_active = false } else k)

abbrev owned : String → String → ApiKey → Bool
owned id owner k = k.id == id && k.user_id == owner

keep-append_own :
    (owner : String) (ks : List ApiKey) (k : ApiKey)
    → k.user_id ≡ owner
    → keys_of_others owner (ks ++ k ∷ []) ≡ keys_of_others owner ks
keep-append_own owner [] k own = ground (arith, own)
keep-append_own owner (j ∷ ks) k own = rw (keep-append_own owner ks k own) refl

revoked-absent :
    (id : String) (ks : List ApiKey)
    → find? (λ (j : ApiKey). j.id == id) ks ≡ none
    → revoked id ks ≡ ks
revoked-absent id [] h = refl
revoked-absent id (k ∷ ks) h = ground (arith, revoked-absent id ks)

owned-absent :
    (id owner : String) (ks : List ApiKey)
    → find? (λ (j : ApiKey). j.id == id) ks ≡ none
    → find? (owned id owner) ks ≡ none
owned-absent id owner [] h = refl
owned-absent id owner (k ∷ ks) h = ground (arith, owned-absent id owner ks)

-- What a revocation by `owner` does to the keys of others.
abbrev Keeps : String → String → List ApiKey → Type 0
Keeps id owner ks = keys_of_others owner (revoked id ks) ≡ keys_of_others owner ks

keep-revoked_here :
    (owner : String) (j : ApiKey) (ks : List ApiKey) (k : ApiKey)
    → find? (λ (i : ApiKey). i.id == j.id) ks ≡ none
    → find? (owned j.id owner) (j ∷ ks) ≡ some k
    → Keeps j.id owner (j ∷ ks)
keep-revoked_here owner j ks k fresh h =
    rw (revoked-absent j.id ks fresh) (ground (arith, owned-absent j.id owner ks fresh))

keep-revoked :
    (id owner : String) (ks : List ApiKey) (k : ApiKey)
    → NodupKeys ks
    → find? (owned id owner) ks ≡ some k
    → Keeps id owner ks
keep-revoked id owner [] k n h = refl
keep-revoked id owner (j ∷ ks) k n h = elim (string_eq.dec j.id id) [
  | yes p ↦
      subst (λ i. find? (owned i owner) (j ∷ ks) ≡ some k → Keeps i owner (j ∷ ks)) p
        (keep-revoked_here owner j ks k n.0) h
  | no q ↦ ground (arith, q, keep-revoked id owner ks k n.1)
]

found-id :
    (id owner : String) (ks : List ApiKey) (k : ApiKey)
    → find? (owned id owner) ks ≡ some k
    → k.id ≡ id
found-id id owner [] k h = cc
found-id id owner (j ∷ ks) k h = ground (arith, found-id id owner ks k)

-- The second state has the accounts of the first, and its API keys of everyone but `owner`.
abbrev pub Spares : String → Backend → Backend → Type 0
Spares owner b b' =
    (keys_of_others owner b'.db.api_keys ≡ keys_of_others owner b.db.api_keys)
    × (b'.db.users ≡ b.db.users)

reads_only : (owner : String) (b b' : Backend) → b' ≡ b → Spares owner b b'
reads_only owner b b' same = (rw same refl, rw same refl)

get_user-state : (id : String) (b : Backend) → (get_user id b).1 ≡ b
unfolding get_user
get_user-state id b = elim (Option-cases (get_user? id b.db)) [
  | inl missing ↦ rw missing refl
  | inr (u, found) ↦ rw found refl
]

answered-state :
    {A : Type 0} (r : Result A) (f : A → Response) (b : Backend)
    → (continue r (λ a. pure (f a)) b).1 ≡ b
answered-state (ok a) f b = refl
answered-state (err e) f b = refl

module _ (sha256 : Text → String) where
  create_api_key-others :
      (id : String) (token : Text) (owner name : String) (b : Backend)
      → Spares owner b (Keys.create_api_key sha256 id token owner name b).1
  unfolding Keys.create_api_key get_user add_key audit_record
  create_api_key-others id token owner name b = elim (Option-cases (get_user? owner b.db)) [
    | inl missing ↦ (rw missing refl, rw missing refl)
    | inr (u, found) ↦ (
      rw found (keep-append_own owner b.db.api_keys _ (get_user?-id owner b.db u found)),
      rw found refl,
    )
  ]

  revoke_api_key-others :
      (owner key_id : String) (b : Backend)
      → NodupKeys b.db.api_keys
      → Spares owner b (Keys.revoke_api_key sha256 owner key_id b).1
  unfolding Keys.revoke_api_key get_for_user update_key audit_record
  revoke_api_key-others owner key_id b n = elim (Option-cases (get_for_user key_id owner b.db)) [
    | inl missing ↦ (rw missing refl, rw missing refl)
    | inr (k, found) ↦
        let same = found-id key_id owner b.db.api_keys k found in
        (rw (found, same) (keep-revoked key_id owner b.db.api_keys k n found), rw found refl)
  ]

  get_api_key-state :
      (owner key_id : String) (b : Backend) → (Keys.get_api_key sha256 owner key_id b).1 ≡ b
  unfolding Keys.get_api_key
  get_api_key-state owner key_id b = elim (Option-cases (get_for_user key_id owner b.db)) [
    | inl missing ↦ rw missing refl
    | inr (k, found) ↦ rw found refl
  ]

  -- When the ids of the keys are unique, whatever a principal asks for leaves the API keys of every
  -- other account as they are, in their order, and changes no account.
  pub handle-Spares :
      (id : String) (token : Text) (p : CurrentPrincipal) (request : Request) (b : Backend)
      → NodupKeys b.db.api_keys
      → Spares p.id b (handle sha256 id token p request b).1
  unfolding handle Keys.list_api_keys
  handle-Spares id token p me b n =
      rw (answered-state (get_user p.id b).0 account (get_user p.id b).1)
        (reads_only p.id b (get_user p.id b).1 (get_user-state p.id b))
  handle-Spares id token p (create_api_key name) b n =
      let made = Keys.create_api_key sha256 id token p.id name b in
      rw (answered-state made.0 (λ m. created m.0 m.1.raw) made.1)
        (create_api_key-others id token p.id name b)
  handle-Spares id token p list_api_keys b n = (refl, refl)
  handle-Spares id token p (get_api_key key_id) b n =
      let found = Keys.get_api_key sha256 p.id key_id b in
      rw (answered-state found.0 key found.1)
        (reads_only p.id b found.1 (get_api_key-state p.id key_id b))
  handle-Spares id token p (revoke_api_key key_id) b n =
      let done = Keys.revoke_api_key sha256 p.id key_id b in
      rw (answered-state done.0 (λ _. no_content) done.1) (revoke_api_key-others p.id key_id b n)
