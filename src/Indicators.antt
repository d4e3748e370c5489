-- ===== src/Indicators.antt =====
-- The enumerations of app/ioc/types.py. A member is a constructor, and its value a string.
pub mod Laws
pub mod Fang
pub mod Patterns
pub mod Classify
pub mod Extract
use cyber_threat_intelligenc.Prelude.{
  ℕ, Bool, String, string_eq, Option, none, some, List, [], ◌∷◌, if◌then◌else◌, ◌==◌,
}

pub data IocType : Type 0 where
  ipv4 ipv6 domain url md5 sha1 sha256 email hostname cve mitre_technique yara sigma : IocType

abbrev pub type_value : IocType → String
type_value ipv4 = "ipv4-addr"
type_value ipv6 = "ipv6-addr"
type_value domain = "domain-name"
type_value url = "url"
type_value md5 = "md5"
type_value sha1 = "sha1"
type_value sha256 = "sha256"
type_value email = "email-addr"
type_value hostname = "hostname"
type_value cve = "cve"
type_value mitre_technique = "attack-pattern"
type_value yara = "yara"
type_value sigma = "sigma"

-- `IOCType(value)`, which raises `ValueError` for `none`: the first member that has the value.
unfoldable pub member : List IocType → String → Option IocType
member [] value = none
member (t ∷ ts) value = let rest = member ts value in if value == type_value t then some t else rest

unfoldable pub parse_type : String → Option IocType
unfolding member
parse_type value =
    member
      (ipv4 ∷ ipv6 ∷ domain ∷ url ∷ md5 ∷ sha1 ∷ sha256 ∷ email ∷ hostname ∷ cve ∷ mitre_technique
        ∷ yara ∷ sigma ∷ [])
      value

abbrev pub hash_types : List IocType
hash_types = md5 ∷ sha1 ∷ sha256 ∷ []

abbrev pub network_types : List IocType
network_types = ipv4 ∷ ipv6 ∷ domain ∷ url ∷ hostname ∷ []

pub data Severity : Type 0 where
  info low medium high critical : Severity

pub data Confidence : Type 0 where
  unknown low medium high confirmed : Confidence

pub data ThreatLevel : Type 0 where
  clean low medium high critical : ThreatLevel

pub data IocStatus : Type 0 where
  active expired whitelisted false_positive : IocStatus
