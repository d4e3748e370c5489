-- ===== src/Sharing.antt =====
-- app/sharing: the exports of indicators to other platforms.
pub mod Stix
pub mod Misp
use cyber_threat_intelligenc.Prelude.{ℕ, Option, none, some, List, [], ◌∷◌}
use cyber_threat_intelligenc.Prelude.Text.{Text}
use cyber_threat_intelligenc.Prelude.Json.{Json, null, string}

-- The libraries `uuid` and `datetime`: `uuid5` of a name within the export's own namespace, the
-- ways an instant is written, and the present.
pub record Writers : Type 0 where
  pub uuid5 : Text → Text
  pub timestamp : ℕ → Text
  pub epoch : ℕ → Text
  pub isoformat : ℕ → Text
  pub now : ℕ

-- `value or datetime.now(UTC)`
abbrev pub moment : Writers → Option ℕ → ℕ
moment W none = W.now
moment W (some time) = time

-- `ioc.description or default`
abbrev pub or_default : Option Text → Text → Text
or_default (some (c ∷ s)) default = c ∷ s
or_default _ default = default
