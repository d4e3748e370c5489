-- ===== src/Actors/Laws.antt =====
-- What is created is found, until it is deleted.
use cyber_threat_intelligenc.Prelude.{
  ◌≡◌, refl, true, not, String, string_eq, Option, none, some, List, [], ◌∷◌, ◌++◌, keep, find?,
  arith, Option-cases, Bool-cases, inl, inr,
}
use cyber_threat_intelligenc.Errors.{ok, err, is_ok, not_found}
use cyber_threat_intelligenc.Actors.{
  ActorData, ThreatActor, ActorDb, named, has_id, create, get, delete,
}

found-append :
    (id : String) (a : ThreatActor) (xs : List ThreatActor)
    → a.id ≡ id
    → find? (has_id id) xs ≡ none
    → find? (has_id id) (xs ++ a ∷ []) ≡ some a
found-append id a [] own h = ground (arith, own)
found-append id a (x ∷ xs) own h = elim (Bool-cases (has_id id x)) [
  | inl same ↦ absurd (cc (rw same at h))
  | inr other ↦ rw other (found-append id a xs own (rw other at h))
]

deleted :
    (id : String) (xs : List ThreatActor)
    → find? (has_id id) (keep (λ a. not (has_id id a)) xs) ≡ none
deleted id [] = refl
deleted id (x ∷ xs) = elim (Bool-cases (has_id id x)) [
  | inl same ↦ rw same (deleted id xs)
  | inr other ↦ rw (other, other) (deleted id xs)
]

found-id :
    (id : String) (xs : List ThreatActor) (a : ThreatActor)
    → find? (has_id id) xs ≡ some a
    → a.id ≡ id
found-id id [] a h = cc
found-id id (x ∷ xs) a h = ground (arith, h, found-id id xs a)

-- An actor that was created under a new key is found under it, with the columns that were given.
pub get-create :
    (id : String) (columns : ActorData) (user_id : Option String) (s : ActorDb)
    → find? (has_id id) s.actors ≡ none
    → is_ok (create id columns user_id s).0 ≡ true
    → (get id (create id columns user_id s).1).0 ≡ ok (record { id = id; columns = columns })
unfolding create get
get-create id columns user_id s fresh success =
    elim (Option-cases (find? (named columns.name) s.actors)) [
      | inr (a, taken) ↦ absurd (cc (rw (taken, create) at success))
      | inl free ↦
          rw (free, create)
            (rw (found-append id (record { id = id; columns = columns }) s.actors refl fresh, get)
              refl)
    ]

-- An actor that was deleted is not found any more.
pub get-delete :
    (id : String) (user_id : Option String) (s : ActorDb)
    → is_ok (delete id user_id s).0 ≡ true
    → (get id (delete id user_id s).1).0 ≡ err (not_found "Threat actor not found.")
unfolding delete get
get-delete id user_id s success = elim (Option-cases (find? (has_id id) s.actors)) [
  | inl missing ↦ absurd (cc (rw (missing, delete) at success))
  | inr (a, found) ↦
      let own = found-id id s.actors a found in
      rw (found, delete) (rw (own, deleted id s.actors, get) refl)
]
