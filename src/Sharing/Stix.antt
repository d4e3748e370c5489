-- ===== src/Sharing/Stix.antt =====
-- app/sharing/stix.py. A document is built as the value that `json.dumps` gets.
pub mod Laws
use cyber_threat_intelligenc.Prelude.{
  ℕ, Bool, true, false, not, ◌||◌, String, string_eq, Option, none, some, List, [], ◌∷◌, ◌++◌, map,
  keep, any, concat_map, if◌then◌else◌, ◌==◌, nat_eq,
}
use cyber_threat_intelligenc.Prelude.Text.{Text, text_eq, codes, starts_with, replace, split}
use cyber_threat_intelligenc.Prelude.Sort.{sorted_set, decimal}
use cyber_threat_intelligenc.Prelude.Dict.{Dict, lookup}
use cyber_threat_intelligenc.Prelude.Json.{
  Json, null, number, string, array, object, items, members,
}
use cyber_threat_intelligenc.Indicators.{
  IocType, ipv4, ipv6, domain, url, md5, sha1, sha256, email, hostname, cve, mitre_technique, yara,
  sigma, type_value, parse_type,
}
use cyber_threat_intelligenc.Iocs.{IocRow}
use cyber_threat_intelligenc.Sharing.{Writers, moment, or_default}

abbrev pub spec_version : Text
spec_version = codes "2.1"

-- `_HASH_ALGORITHM.get(ioc_type)`
abbrev pub hash_algorithm : IocType → Option Text
hash_algorithm md5 = some (codes "MD5")
hash_algorithm sha1 = some (codes "SHA-1")
hash_algorithm sha256 = some (codes "SHA-256")
hash_algorithm _ = none

-- `_CONFIDENCE`
abbrev pub confidence_scale : Dict String ℕ
confidence_scale =
    ("unknown", 15) ∷ ("low", 30) ∷ ("medium", 50) ∷ ("high", 75) ∷ ("confirmed", 95) ∷ []

-- `_INDICATOR_TYPE`
abbrev pub indicator_type : Dict String Text
indicator_type =
    ("clean", codes "benign")
    ∷ ("low", codes "anomalous-activity")
    ∷ ("medium", codes "anomalous-activity")
    ∷ ("high", codes "malicious-activity")
    ∷ ("critical", codes "malicious-activity")
    ∷ []

abbrev or_else {ℓ} : {A : Type ℓ} → Option A → A → A
or_else none d = d
or_else (some a) d = a

-- `_escape`
unfoldable pub escape : Text → Text
unfolding replace
escape value = replace (codes "'") (codes "\\'") (replace (codes "\\") (codes "\\\\") value)

-- `f"[{path} = '{escaped}']"`
unfoldable pub comparison : Text → Text → Text
unfolding escape
comparison path value = 91 ∷ path ++ (codes " = '" ++ (escape value ++ codes "']"))

hash_pattern : Option Text → Text → Option Text
unfolding comparison
hash_pattern none value = none
hash_pattern (some algorithm) value =
    some (comparison (codes "file:hashes.'" ++ algorithm ++ codes "'") value)

unfoldable pub stix_pattern : IocType → Text → Option Text
unfolding hash_pattern
stix_pattern ipv4 value = some (comparison (codes (type_value ipv4) ++ codes ":value") value)
stix_pattern ipv6 value = some (comparison (codes (type_value ipv6) ++ codes ":value") value)
stix_pattern domain value = some (comparison (codes (type_value domain) ++ codes ":value") value)
stix_pattern url value = some (comparison (codes (type_value url) ++ codes ":value") value)
stix_pattern email value = some (comparison (codes (type_value email) ++ codes ":value") value)
stix_pattern hostname value = some (comparison (codes "domain-name:value") value)
stix_pattern t value = hash_pattern (hash_algorithm t) value

-- A dict in the order of its keys.
abbrev pub Fields : Type 0
Fields = List (Text × Json)

abbrev pub ref : String → Json → Text × Json
ref name value = (codes name, value)

abbrev pub dict : Fields → Json
dict fields = object (members fields)

-- `"/".join(parts)`
abbrev join_slash : List Text → Text
join_slash [] = []
join_slash (s ∷ []) = s
join_slash (s ∷ t ∷ ts) = s ++ 47 ∷ join_slash (t ∷ ts)

abbrev first_of : List Text → Text
first_of [] = []
first_of (s ∷ ss) = s

module _ (W : Writers) where
  -- `_deterministic_id`
  unfoldable pub deterministic_id : Text → Text → Text
  deterministic_id sdo_type name = sdo_type ++ codes "--" ++ W.uuid5 (sdo_type ++ 58 ∷ name)

  unfoldable pub identity : Text → Fields
  unfolding deterministic_id
  identity name =
      ref "type" (string (codes "identity"))
      ∷ ref "spec_version" (string spec_version)
      ∷ ref "id" (string (deterministic_id (codes "identity") name))
      ∷ ref "created" (string (W.timestamp W.now))
      ∷ ref "modified" (string (W.timestamp W.now))
      ∷ ref "name" (string name)
      ∷ ref "identity_class" (string (codes "system"))
      ∷ []

  -- `_external_references`
  unfoldable pub external_references : IocRow → List Json
  unfolding starts_with
  external_references ioc =
      dict (ref "source_name" (string (codes ioc.source)) ∷ [])
      ∷ map
          (λ url.
            dict (ref "source_name" (string (codes ioc.source)) ∷ ref "url" (string url) ∷ []))
          (keep (λ url. starts_with url (codes "http://") || starts_with url (codes "https://"))
            ioc.references)

  abbrev head_fields : String → Text → Text → IocRow → Fields
  head_fields sdo_type name created_by ioc =
      ref "type" (string (codes sdo_type))
      ∷ ref "spec_version" (string spec_version)
      ∷ ref "id" (string (deterministic_id (codes sdo_type) name))
      ∷ ref "created_by_ref" (string created_by)
      ∷ ref "created" (string (W.timestamp (moment W ioc.first_seen)))
      ∷ ref "modified" (string (W.timestamp (moment W ioc.last_seen)))
      ∷ []

  unfoldable pub vulnerability : Text → IocRow → Fields
  unfolding deterministic_id
  vulnerability created_by ioc =
      head_fields "vulnerability" ioc.value created_by ioc
      ++ ref "name" (string ioc.value)
        ∷ ref "description"
            (string (or_default ioc.description (codes "Vulnerability " ++ ioc.value)))
        ∷ ref "external_references" (
            array (
              items (
                dict (
                  ref "source_name" (string (codes "cve"))
                  ∷ ref "external_id" (string ioc.value)
                  ∷ [])
                ∷ [])))
        ∷ []

  unfoldable pub attack_pattern : Text → IocRow → Fields
  unfolding deterministic_id split
  attack_pattern created_by ioc =
      let base = first_of (split 46 ioc.value) in
      let path = join_slash (split 46 ioc.value) in
      head_fields "attack-pattern" ioc.value created_by ioc
      ++ ref "name" (string (or_default ioc.description (codes "ATT&CK technique " ++ ioc.value)))
        ∷ ref "external_references" (
            array (
              items (
                dict (
                  ref "source_name" (string (codes "mitre-attack"))
                  ∷ ref "external_id" (string ioc.value)
                  ∷ ref "url"
                      (string (codes "https://attack.mitre.org/techniques/" ++ path ++ codes "/"))
                  ∷ [])
                ∷ [])))
        ∷ ref "x_mitre_parent_technique" (if base == ioc.value then null else string base)
        ∷ []

  -- The default of the description of an indicator.
  abbrev observed : IocRow → Text
  observed ioc =
      codes ioc.type
      ++ codes " observed by "
      ++ codes ioc.source
      ++ codes "; threat score "
      ++ decimal ioc.threat_score
      ++ codes "/100."

  unfoldable pub indicator : Text → IocRow → Text → Fields
  unfolding deterministic_id decimal lookup sorted_set external_references
  indicator created_by ioc pattern =
      head_fields "indicator" pattern created_by ioc
      ++ ref "name" (string ioc.defanged_value)
        ∷ ref "description" (string (or_default ioc.description (observed ioc)))
        ∷ ref "indicator_types" (
            array (
              items
                (string (or_else (lookup ioc.threat_level indicator_type) (codes "unknown")) ∷ [])))
        ∷ ref "pattern" (string pattern)
        ∷ ref "pattern_type" (string (codes "stix"))
        ∷ ref "valid_from" (string (W.timestamp (moment W ioc.first_seen)))
        ∷ ref "confidence" (number (or_else (lookup ioc.confidence confidence_scale) 50))
        ∷ ref "labels"
            (array (items (map string (sorted_set (ioc.tags ++ codes ioc.severity ∷ [])))))
        ∷ ref "external_references" (array (items (external_references ioc)))
        ∷ ref "x_threat_score" (number ioc.threat_score)
        ∷ ref "x_threat_level" (string (codes ioc.threat_level))
        ∷ ref "x_sightings" (number ioc.sightings)
        ∷ []

  pattern_sdo : Text → IocRow → Option Text → Option Fields
  unfolding indicator
  pattern_sdo created_by ioc none = none
  pattern_sdo created_by ioc (some pattern) = some (indicator created_by ioc pattern)

  sdo_of : Text → IocRow → Option IocType → Option Fields
  unfolding vulnerability attack_pattern pattern_sdo stix_pattern
  sdo_of created_by ioc none = none
  sdo_of created_by ioc (some cve) = some (vulnerability created_by ioc)
  sdo_of created_by ioc (some mitre_technique) = some (attack_pattern created_by ioc)
  sdo_of created_by ioc (some t) = pattern_sdo created_by ioc (stix_pattern t ioc.value)

  unfoldable pub sdo_for : Text → IocRow → Option Fields
  unfolding sdo_of parse_type
  sdo_for created_by ioc = sdo_of created_by ioc (parse_type ioc.type)

  is_present : Json → Bool
  is_present null = false
  is_present _ = true

  -- `{k: v for k, v in sdo.items() if v is not None}`
  unfoldable pub without_nulls : Fields → Fields
  unfolding is_present
  without_nulls fields = keep (λ (f : Text × Json). is_present f.1) fields

  sdo_objects : Option Fields → List Json
  unfolding without_nulls
  sdo_objects none = []
  sdo_objects (some sdo) = dict (without_nulls sdo) ∷ []

  -- The loop over the indicators.
  unfoldable pub bundle_objects : Text → List IocRow → List Json
  unfolding sdo_objects sdo_for
  bundle_objects created_by iocs = concat_map (λ ioc. sdo_objects (sdo_for created_by ioc)) iocs

  -- `bundle_id` is given, or made from a random UUID.
  unfoldable pub to_stix_bundle : Text → Text → List IocRow → Json
  unfolding identity bundle_objects
  to_stix_bundle producer bundle_id iocs = dict (
      ref "type" (string (codes "bundle"))
      ∷ ref "id" (string bundle_id)
      ∷ ref "objects" (
          array (
            items (
              dict (identity producer)
              ∷ bundle_objects (deterministic_id (codes "identity") producer) iocs)))
      ∷ [])
