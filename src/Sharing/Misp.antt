-- ===== src/Sharing/Misp.antt =====
-- app/sharing/misp.py. A document is built as the value that `json.dumps` gets.
pub mod Laws
use cyber_threat_intelligenc.Prelude.{
  ℕ, Bool, true, false, ◌&&◌, String, string_eq, Option, none, some, List, [], ◌∷◌, ◌++◌, map,
  concat_map, contains, leb, min, if◌then◌else◌, ◌==◌, nat_eq,
}
use cyber_threat_intelligenc.Prelude.Text.{Text, text_eq, codes}
use cyber_threat_intelligenc.Prelude.Sort.{sorted, decimal}
use cyber_threat_intelligenc.Prelude.Dict.{Dict, lookup}
use cyber_threat_intelligenc.Prelude.Json.{Json, boolean, string, array, object, items, members}
use cyber_threat_intelligenc.Indicators.{
  IocType, ipv4, ipv6, domain, url, md5, sha1, sha256, email, hostname, cve, mitre_technique, yara,
  sigma, type_value, parse_type,
}
use cyber_threat_intelligenc.Iocs.{IocRow}
use cyber_threat_intelligenc.Sharing.{Writers, moment, or_default}

-- `_ATTRIBUTE_TYPE.get(ioc_type)`
abbrev pub attribute_type : IocType → Option String
attribute_type ipv4 = some "ip-dst"
attribute_type ipv6 = some "ip-dst"
attribute_type domain = some "domain"
attribute_type hostname = some "hostname"
attribute_type url = some "url"
attribute_type md5 = some "md5"
attribute_type sha1 = some "sha1"
attribute_type sha256 = some "sha256"
attribute_type email = some "email-src"
attribute_type cve = some "vulnerability"
attribute_type yara = some "yara"
attribute_type sigma = some "sigma"
attribute_type mitre_technique = none

-- `_CATEGORY`
abbrev pub category : Dict String Text
category =
    ("ip-dst", codes "Network activity")
    ∷ ("domain", codes "Network activity")
    ∷ ("hostname", codes "Network activity")
    ∷ ("url", codes "Network activity")
    ∷ ("md5", codes "Payload delivery")
    ∷ ("sha1", codes "Payload delivery")
    ∷ ("sha256", codes "Payload delivery")
    ∷ ("email-src", codes "Payload delivery")
    ∷ ("vulnerability", codes "External analysis")
    ∷ ("yara", codes "Payload installation")
    ∷ ("sigma", codes "Payload installation")
    ∷ []

-- `_THREAT_LEVEL`
abbrev pub threat_levels : Dict String ℕ
threat_levels = ("critical", 1) ∷ ("high", 1) ∷ ("medium", 2) ∷ ("low", 3) ∷ ("clean", 4) ∷ []

-- `_DETECTABLE`
abbrev pub detectable : List String
detectable = "ip-dst" ∷ "domain" ∷ "hostname" ∷ "url" ∷ "md5" ∷ "sha1" ∷ "sha256" ∷ []

abbrev pub to_ids_min_score : ℕ
to_ids_min_score = 50

abbrev or_else {ℓ} : {A : Type ℓ} → Option A → A → A
or_else none d = d
or_else (some a) d = a

unfoldable pub to_ids : String → IocRow → Bool
to_ids attribute ioc = contains detectable attribute && leb to_ids_min_score ioc.threat_score

abbrev ref : String → Json → Text × Json
ref name value = (codes name, value)

abbrev dict : List (Text × Json) → Json
dict fields = object (members fields)

abbrev name_tag : Text → Json
name_tag name = dict (ref "name" (string name) ∷ [])

-- `_THREAT_LEVEL.get(i.threat_level, 4)`
unfoldable pub level_id : IocRow → ℕ
unfolding lookup
level_id ioc = or_else (lookup ioc.threat_level threat_levels) 4

-- `min` of the levels behind `first`.
abbrev minimum : ℕ → List IocRow → ℕ
minimum first [] = first
minimum first (ioc ∷ iocs) = min first (minimum (level_id ioc) iocs)

-- `_worst_level`
unfoldable pub worst_level : List IocRow → ℕ
unfolding level_id
worst_level [] = 4
worst_level (ioc ∷ iocs) = minimum (level_id ioc) iocs

module _ (W : Writers) where
  abbrev comment_of : IocRow → Text
  comment_of ioc =
      codes "score "
      ++ decimal ioc.threat_score
      ++ codes "/100 ("
      ++ codes ioc.threat_level
      ++ codes ") via "
      ++ codes ioc.source

  tags_of : IocRow → List Json
  unfolding sorted
  tags_of ioc =
      map name_tag (sorted ioc.tags)
      ++ name_tag (codes "tip:threat-level=\"" ++ codes ioc.threat_level ++ codes "\"") ∷ []

  -- The attribute of a type that MISP has.
  unfoldable pub attribute_of : IocRow → String → Json
  unfolding decimal lookup tags_of to_ids
  attribute_of ioc attribute = dict (
      ref "uuid" (string (W.uuid5 (codes ioc.type ++ 58 ∷ ioc.value)))
      ∷ ref "type" (string (codes attribute))
      ∷ ref "category" (string (or_else (lookup attribute category) (codes "External analysis")))
      ∷ ref "value" (string ioc.value)
      ∷ ref "to_ids" (boolean (to_ids attribute ioc))
      ∷ ref "distribution" (string (codes "5"))
      ∷ ref "comment" (string (or_default ioc.description (comment_of ioc)))
      ∷ ref "timestamp" (string (W.epoch (moment W ioc.last_seen)))
      ∷ ref "first_seen" (string (W.isoformat (moment W ioc.first_seen)))
      ∷ ref "last_seen" (string (W.isoformat (moment W ioc.last_seen)))
      ∷ ref "Tag" (array (items (tags_of ioc)))
      ∷ [])

  abbrev with_type : IocRow → Option String → List Json
  with_type ioc none = []
  with_type ioc (some attribute) = attribute_of ioc attribute ∷ []

  abbrev of_type : IocRow → Option IocType → List Json
  of_type ioc none = []
  of_type ioc (some t) = with_type ioc (attribute_type t)

  -- `_attribute`, with no element for `None`.
  unfoldable pub attribute : IocRow → List Json
  unfolding attribute_of parse_type
  attribute ioc = of_type ioc (parse_type ioc.type)

  unfoldable pub technique_tags : IocRow → List Json
  technique_tags ioc =
      if ioc.type == type_value mitre_technique
      then name_tag (codes "misp-galaxy:mitre-attack-pattern=\"" ++ ioc.value ++ codes "\"") ∷ []
      else []

  -- `day` is the ISO form of `event_date`, or of today.
  unfoldable pub to_misp_event : Text → Text → Text → List IocRow → Json
  unfolding attribute technique_tags decimal worst_level
  to_misp_event info day distribution iocs = dict (
      ref "Event" (
        dict (
          ref "uuid" (string (W.uuid5 (info ++ 58 ∷ day)))
          ∷ ref "info" (string info)
          ∷ ref "date" (string day)
          ∷ ref "threat_level_id" (string (decimal (worst_level iocs)))
          ∷ ref "analysis" (string (codes "2"))
          ∷ ref "distribution" (string distribution)
          ∷ ref "published" (boolean false)
          ∷ ref "Attribute" (array (items (concat_map attribute iocs)))
          ∷ ref "Tag"
              (array (items (name_tag (codes "tlp:amber") ∷ concat_map technique_tags iocs)))
          ∷ []))
      ∷ [])
