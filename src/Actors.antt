-- ===== src/Actors.antt =====
-- app/services/threat_actor_service.py. `list` only orders the rows, as the database collates them,
-- and is left out.
pub mod Laws
use cyber_threat_intelligenc.Prelude.{
  Bool, not, String, string_eq, Option, none, some, List, [], ◌∷◌, ◌++◌, keep, find?, is_some, ◌==◌,
}
use cyber_threat_intelligenc.Errors.{
  conflict, not_found, Exec, Result, ok, err, pure, raise, gets, modify, raise_if, ◌>>=◌, ◌>>◌,
}
use cyber_threat_intelligenc.Auth.Store.{AuditLog}
use cyber_threat_intelligenc.Auth.Users.{audit}

-- The columns that a caller gives.
pub record ActorData : Type 0 where
  pub name : String
  pub actor_type : String
  pub country : Option String
  pub aliases : List String
  pub motivations : List String
  pub techniques : List String
  pub known_malware : List String
  pub targets : List String
  pub description : Option String

pub record ThreatActor : Type 0 where
  pub id : String
  pub columns : ActorData

pub record ActorDb : Type 0 where
  pub actors : List ThreatActor
  pub audit_logs : List AuditLog

abbrev pub named : String → ThreatActor → Bool
named name a = a.columns.name == name

abbrev pub has_id : String → ThreatActor → Bool
has_id id a = a.id == id

abbrev log : AuditLog → Exec ActorDb (Unit {0})
log entry = modify (λ s. record s { audit_logs = s.audit_logs ++ entry ∷ [] })

-- `id` is the key of the new row.
unfoldable pub create : String → ActorData → Option String → Exec ActorDb ThreatActor
create id columns user_id = do
  raise_if (← gets (λ s. is_some (find? (named columns.name) s.actors))) (conflict columns.name)
  let actor : ThreatActor = record { id = id; columns = columns }
  modify (λ s. record s { actors = s.actors ++ actor ∷ [] })
  log (audit "actor.create" user_id (("name", columns.name) ∷ []))
  pure actor

abbrev found_or_raise : Option ThreatActor → Exec ActorDb ThreatActor
found_or_raise none = raise (not_found "Threat actor not found.")
found_or_raise (some a) = pure a

unfoldable pub get : String → Exec ActorDb ThreatActor
get actor_id = do found ← gets (λ s. find? (has_id actor_id) s.actors); found_or_raise found

unfoldable pub delete : String → Option String → Exec ActorDb (Unit {0})
unfolding get
delete actor_id user_id = do
  actor ← get actor_id
  modify (λ s. record s { actors = keep (λ a. not (has_id actor.id a)) s.actors })
  log (audit "actor.delete" user_id (("id", actor_id) ∷ []))
