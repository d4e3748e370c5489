-- ===== src/Tests/Platform.antt =====
-- Relations, threat actors and the start-up check at work.
use native.Mathlib.Decide.{ℕ_discrete}
use cyber_threat_intelligenc.Prelude.{ℕ, ◌≡◌, refl, true, false, string_eq, none, List, [], ◌∷◌}
use cyber_threat_intelligenc.Prelude.Text.{text_eq, codes, lower}
use cyber_threat_intelligenc.Security.Rbac.{ioc_write, has_permission, parse_role}
use cyber_threat_intelligenc.Auth.Store.{User, email_exists, get_by_email}
use cyber_threat_intelligenc.Auth.Users.{register}
use cyber_threat_intelligenc.Correlation.{CorrelationEdge}
use cyber_threat_intelligenc.Actors.{ActorData, ActorDb}
use cyber_threat_intelligenc.Settings.{Settings, production, validate_runtime, missing}
use cyber_threat_intelligenc.Settings.Laws.{registered_cannot_write}
use cyber_threat_intelligenc.Tests.Fixtures.{backend}

abbrev edges : List (CorrelationEdge ℕ)
edges =
    record {
      id = "e1";
      source_ref = "a";
      target_ref = "b";
      relationship = "uses";
      confidence = 50;
      source = "manual";
    }
    ∷ record {
      id = "e2";
      source_ref = "a";
      target_ref = "b";
      relationship = "drops";
      confidence = 70;
      source = "feed";
    }
    ∷ []

abbrev columns : ActorData
columns = record {
  name = "FIN7";
  actor_type = "cybercrime";
  country = none;
  aliases = [];
  motivations = [];
  techniques = "T1566" ∷ [];
  known_malware = [];
  targets = [];
  description = none;
}

abbrev no_actors : ActorDb
no_actors = record { actors = []; audit_logs = [] }

-- A deployment with open registration.
abbrev settings : Settings
settings = record {
  app_env = production;
  app_debug = false;
  master_encryption_key = codes "key";
  jwt_secret_key = codes "0123456789abcdef0123456789abcdef";
  registration_default_role = "viewer";
  allow_open_registration = true;
  cors_origins = [];
  expose_api_docs = false;
}

abbrev carol : User
carol = record {
  id = "carol";
  email = codes "carol@soc.example";
  password_hash = "pw";
  role = "viewer";
  is_active = true;
}

registered_cannot_write_example : has_permission "viewer" ioc_write ≡ false
unfolding validate_runtime missing register parse_role string_eq text_eq ℕ_discrete email_exists
    get_by_email lower
registered_cannot_write_example =
    registered_cannot_write settings (λ p. p) "carol" (codes "Carol@soc.example") "pw" backend carol
      refl refl refl
