-- ===== src/Enrichment.antt =====
-- app/enrichment: the enrichers and the engine that merges what they say. The libraries `hashlib`
-- and `ipaddress` are parameters, and through the SSRF guard the resolver.
pub mod Laws
use cyber_threat_intelligenc.Prelude.{
  ℕ, zero, suc, ◌+◌, ◌*◌, ◌%◌, Bool, true, false, not, String, string_eq, Option, none, some, List,
  [], ◌∷◌, ◌++◌, contains, min, ltb, if◌then◌else◌, ◌==◌, nat_eq, ◌/◌,
}
use cyber_threat_intelligenc.Prelude.Text.{Text, text_eq, codes}
use cyber_threat_intelligenc.Prelude.Sort.{decimal}
use cyber_threat_intelligenc.Errors.{Attempt, returned, thrown, value_error}
use cyber_threat_intelligenc.Ssrf.{Network, Checked, safe, refused, host_allowed, resolve_public}
use cyber_threat_intelligenc.Indicators
use cyber_threat_intelligenc.Indicators.{IocType, md5, sha1, sha256}
use cyber_threat_intelligenc.Indicators.Classify.{Parsers, extract_host}
use cyber_threat_intelligenc.Scoring
use cyber_threat_intelligenc.Scoring.{Signal}
use cyber_threat_intelligenc.Scoring.Engine.{
  Floats, ScoreSignals, detection_share, recency_score, frequency_score, source_reputation_score,
  port_risk_score, geo_risk_score,
}

-- `digest` gives the first three bytes of the SHA-256 of some bytes.
pub record Hashing : Type 0 where
  pub digest : List ℕ → ℕ × ℕ × ℕ
  -- `ipaddress.ip_address(host).packed`; `none` is a `ValueError`.
  pub packed : Text → Option (List ℕ)
  -- `host.encode()`; `none` is a `UnicodeEncodeError`, a `ValueError`.
  pub encode : Text → Option (List ℕ)
  -- `round(detected / total, 3)`
  pub ratio : ℕ → ℕ → ℕ

pub record GeoIp : Type 0 where
  pub country : String
  pub asn : ℕ
  pub org : Text
  pub source : String

pub record Dns : Type 0 where
  pub resolved : List Text
  pub source : String
  pub blocked : Bool
  pub error : Bool

pub record Reputation : Type 0 where
  pub detected : ℕ
  pub total : ℕ
  pub ratio : ℕ
  pub source : String

-- The merged payload, by its keys.
pub record Facets : Type 0 where
  pub geoip : Option GeoIp
  pub dns : Option Dns
  pub reputation : Option Reputation

abbrev pub no_facets : Facets
no_facets = record { geoip = none; dns = none; reputation = none }

-- The settings that the enrichers read.
pub record EnrichmentPolicy : Type 0 where
  pub enable_live_collectors : Bool
  pub outbound_allowed_hosts : List Text

abbrev pub demo_geos : List String
demo_geos = "US" ∷ "RU" ∷ "CN" ∷ "DE" ∷ "NL" ∷ "IR" ∷ "BR" ∷ "IN" ∷ "KP" ∷ "GB" ∷ []

-- `_DEMO_GEOS[n]`, for an index in range.
abbrev nth : List String → ℕ → String
nth [] n = ""
nth (g ∷ gs) zero = g
nth (g ∷ gs) (suc n) = nth gs n

abbrev dns_of : List Text → String → Bool → Bool → Dns
dns_of resolved source blocked error = record {
  resolved = resolved;
  source = source;
  blocked = blocked;
  error = error;
}

module _ (H : Hashing) (N : Network) (policy : EnrichmentPolicy) where
  geo_of : ℕ × ℕ × ℕ → GeoIp
  unfolding decimal
  geo_of (a, b, c) =
      let asn = 64512 + (b * 256 + c) % 1000 in
      record {
        country = nth demo_geos (a % 10);
        asn = asn;
        org = codes "AS" ++ decimal asn ++ codes " Demo Network";
        source = "offline-heuristic";
      }

  -- `GeoIPEnricher.enrich`
  unfoldable pub enrich_geoip : Text → Option GeoIp
  unfolding geo_of
  enrich_geoip host = elim (H.packed host) [
    | none ↦ none
    | some bytes ↦ some (geo_of (H.digest bytes))
  ]

  answered : Checked (List Text) → Dns
  answered (safe ips) = dns_of ips "live" false false
  answered (refused reason) = dns_of [] "live" false true

  -- `DNSEnricher.enrich`
  unfoldable pub enrich_dns : Text → Dns
  unfolding answered
  enrich_dns host =
      if not policy.enable_live_collectors
      then dns_of [] "offline-heuristic" false false
      else if not (host_allowed policy.outbound_allowed_hosts host)
      then dns_of [] "live" true false
      else answered (resolve_public N policy.outbound_allowed_hosts host)

  reputation_of : ℕ × ℕ × ℕ → Reputation
  reputation_of (a, b, c) = record {
    detected = a % 70;
    total = 70;
    ratio = H.ratio (a % 70) 70;
    source = "offline-heuristic";
  }

  -- `ReputationEnricher.enrich`
  unfoldable pub enrich_reputation : Text → Attempt Reputation
  unfolding reputation_of
  enrich_reputation host = elim (H.encode host) [
    | none ↦ thrown value_error
    | some bytes ↦ returned (reputation_of (H.digest bytes))
  ]

  with_reputation : Facets → Attempt Reputation → Attempt Facets
  with_reputation facets (thrown e) = thrown e
  with_reputation facets (returned r) = returned (record facets { reputation = some r })

  abbrev is_hash_type : IocType → Bool
  is_hash_type md5 = true
  is_hash_type sha1 = true
  is_hash_type sha256 = true
  is_hash_type _ = false

  -- The DNS facet as `enrich` comes to it: the enricher's, or that of a host not allowed.
  unfoldable pub dns_facet : Text → Dns
  unfolding enrich_dns
  dns_facet host =
      if host_allowed policy.outbound_allowed_hosts host
      then enrich_dns host
      else dns_of [] "live" true false

  unfoldable pub enrich_host : Text → IocType → Attempt (Option Text) → Attempt Facets
  unfolding enrich_geoip enrich_reputation dns_facet with_reputation
  enrich_host value t (thrown e) = thrown e
  enrich_host value t (returned none) =
      if is_hash_type t
      then with_reputation no_facets (enrich_reputation value)
      else returned no_facets
  enrich_host value t (returned (some host)) =
      with_reputation
        (record { geoip = enrich_geoip host; dns = some (dns_facet host); reputation = none })
        (enrich_reputation host)

  -- `EnrichmentEngine.enrich`
  unfoldable pub enrich : Parsers → IocType → Text → Attempt Facets
  unfolding enrich_host
  enrich P t value = enrich_host value t (extract_host P value t)

abbrev pub reputable_sources : List String
reputable_sources =
    "abuseipdb" ∷ "urlhaus" ∷ "malwarebazaar" ∷ "otx" ∷ "cisa_kev" ∷ "virustotal" ∷ []

module _ (F : Floats) where
  detections : Option Reputation → ℕ
  detections none = 0
  detections (some r) = detection_share F r.detected r.total

  country_of : Option GeoIp → Option String
  country_of none = none
  country_of (some g) = some g.country

  -- `signals_from`, as `upsert` calls it: without `open_ports`. `confidence` is in units.
  unfoldable pub signals_from : Facets → String → ℕ → Bool → ℕ → ℕ → ScoreSignals
  unfolding detections country_of
  signals_from facets source confidence blacklisted sightings age Signal.source_reputation =
      source_reputation_score F (if contains reputable_sources source then 2 else 1)
  signals_from facets source confidence blacklisted sightings age Signal.detection_ratio =
      detections facets.reputation
  signals_from facets source confidence blacklisted sightings age Signal.blacklist_presence =
      if blacklisted then F.one else 0
  signals_from facets source confidence blacklisted sightings age Signal.confidence = confidence
  signals_from facets source confidence blacklisted sightings age Signal.recency =
      recency_score F age
  signals_from facets source confidence blacklisted sightings age Signal.frequency =
      frequency_score F sightings
  signals_from facets source confidence blacklisted sightings age Signal.geo_risk =
      geo_risk_score F (country_of facets.geoip)
  signals_from facets source confidence blacklisted sightings age Signal.port_risk =
      port_risk_score F []
  signals_from facets source confidence blacklisted sightings age Signal.historical_activity =
      min F.one (sightings * F.one / 50)
