-- ===== src/Indicators/Laws.antt =====
-- The type of an indicator survives its way through the database as a string.
use cyber_threat_intelligenc.Prelude.{◌≡◌, refl, some, string_eq}
use cyber_threat_intelligenc.Indicators.{
  IocType, ipv4, ipv6, domain, url, md5, sha1, sha256, email, hostname, cve, mitre_technique, yara,
  sigma, type_value, parse_type, member,
}

-- Reading the stored value of a type gives back the type.
parse_type-type_value : (t : IocType) → parse_type (type_value t) ≡ some t
unfolding parse_type member string_eq
parse_type-type_value ipv4 = refl
parse_type-type_value ipv6 = refl
parse_type-type_value domain = refl
parse_type-type_value url = refl
parse_type-type_value md5 = refl
parse_type-type_value sha1 = refl
parse_type-type_value sha256 = refl
parse_type-type_value email = refl
parse_type-type_value hostname = refl
parse_type-type_value cve = refl
parse_type-type_value mitre_technique = refl
parse_type-type_value yara = refl
parse_type-type_value sigma = refl
