-- ===== src/Iocs.antt =====
-- The row of app/models/ioc.py, which the service writes and the exports read.
pub mod Store
pub mod Service
use cyber_threat_intelligenc.Prelude.{ℕ, String, Option, List}
use cyber_threat_intelligenc.Prelude.Text.{Text}

-- The table `iocs`. A time is an instant: `none` where the column is empty.
pub record IocRow : Type 0 where
  pub id : String
  pub type : String
  pub value : Text
  pub defanged_value : Text
  pub source : String
  pub confidence : String
  pub severity : String
  pub status : String
  pub threat_score : ℕ
  pub threat_level : String
  pub sightings : ℕ
  pub tags : List Text
  pub references : List Text
  pub description : Option Text
  pub first_seen : Option ℕ
  pub last_seen : Option ℕ
