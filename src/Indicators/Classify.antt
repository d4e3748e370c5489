-- ===== src/Indicators/Classify.antt =====
-- `classify_indicator` and its helpers of app/ioc/indicators.py. The libraries `ipaddress` and
-- `urllib.parse` are parameters.
pub mod Laws
use cyber_threat_intelligenc.Prelude.{
  ℕ, Bool, true, false, not, ◌&&◌, ◌||◌, Option, none, some, List, [], ◌∷◌, is_some, if◌then◌else◌,
  ◌==◌, nat_eq,
}
use cyber_threat_intelligenc.Prelude.Text.{Text, text_eq, codes, lower, upper, strip, occurs, split}
use cyber_threat_intelligenc.Errors.{
  Attempt, returned, thrown, Exception, app_error, value_error, unknown_indicator,
}
use cyber_threat_intelligenc.Indicators.{
  IocType, ipv4, ipv6, domain, url, md5, sha1, sha256, email, hostname, cve, mitre_technique, yara,
  sigma,
}
use cyber_threat_intelligenc.Indicators.Fang.{refang}
use cyber_threat_intelligenc.Indicators.Patterns.{
  is_hex_of, is_cve, is_technique, is_email, is_domain,
}

pub data IpVersion : Type 0 where
  version_4 version_6 : IpVersion

pub record SplitUrl : Type 0 where
  pub scheme : Text
  pub netloc : Text
  pub hostname : Option Text

-- `none` is a `ValueError`.
pub record Parsers : Type 0 where
  -- `ipaddress.ip_address(s).version`
  pub ip_version : Text → Option IpVersion
  pub urlsplit : Text → Option SplitUrl

pub record ParsedIndicator : Type 0 where
  pub type : IocType
  pub value : Text

unfoldable pub is_hash : Text → Bool
is_hash value =
    is_hex_of 32 (strip value) || (is_hex_of 40 (strip value) || is_hex_of 64 (strip value))

unfoldable pub hash_type : Text → Option IocType
hash_type value =
    if is_hex_of 32 value
    then some md5
    else if is_hex_of 40 value
    then some sha1
    else if is_hex_of 64 value
    then some sha256
    else none

abbrev pub parsed_as : IocType → Text → Attempt ParsedIndicator
parsed_as type value = returned (record { type = type; value = value })

abbrev version_type : Option IpVersion → Option IocType
version_type none = none
version_type (some version_4) = some ipv4
version_type (some version_6) = some ipv6

-- The first part and whether there are exactly two.
abbrev before_port : List Text → Text → Text
before_port (host ∷ port ∷ []) value = host
before_port _ value = value

-- `value.split(":", 1)[0] if value.count(":") == 1 and "." in value else value`
unfoldable pub bare_host : Text → Text
unfolding split occurs
bare_host value = if occurs (codes ".") value then before_port (split 58 value) value else value

module _ (P : Parsers) where
  unfoldable pub ip_type : Text → Option IocType
  ip_type value = version_type (P.ip_version value)

  -- What is neither a hash, a CVE, a technique nor a URL.
  unfoldable pub classify_host : Text → Attempt ParsedIndicator
  unfolding ip_type
  classify_host value =
      if is_email value then parsed_as email (lower value) else elim (ip_type (bare_host value)) [
        | some type ↦ parsed_as type (bare_host value)
        | none ↦
            if is_domain value
            then parsed_as domain (lower value)
            else thrown (app_error unknown_indicator)
      ]

  -- `parts.scheme and parts.netloc`; `urlsplit` raises a `ValueError` that nothing catches.
  unfoldable pub classify_url : Text → Option SplitUrl → Attempt ParsedIndicator
  unfolding classify_host
  classify_url value none = thrown value_error
  classify_url value (some parts) =
      if parts.scheme == [] || parts.netloc == [] then classify_host value else parsed_as url value

  unfoldable pub classify_value : Text → Attempt ParsedIndicator
  unfolding hash_type classify_url
  classify_value value = elim (hash_type value) [
    | some type ↦ parsed_as type (lower value)
    | none ↦
        if is_cve value
        then parsed_as cve (upper value)
        else if is_technique value
        then parsed_as mitre_technique (upper value)
        else if occurs (codes "://") value
        then classify_url value (P.urlsplit value)
        else classify_host value
  ]

  unfoldable pub classify_indicator : Text → Attempt ParsedIndicator
  unfolding classify_value
  classify_indicator raw =
      let value = strip (refang raw) in
      if value == [] then thrown (app_error unknown_indicator) else classify_value value

  host_of : Option SplitUrl → Attempt (Option Text)
  host_of none = thrown value_error
  host_of (some parts) = returned parts.hostname

  unfoldable pub extract_host : Text → IocType → Attempt (Option Text)
  unfolding host_of
  extract_host value ipv4 = returned (some value)
  extract_host value ipv6 = returned (some value)
  extract_host value domain = returned (some value)
  extract_host value hostname = returned (some value)
  extract_host value url = host_of (P.urlsplit value)
  extract_host value _ = returned none
