-- ===== src/Tests/Iocs.antt =====
-- Indicators submitted, scored, enriched and exported.
use cyber_threat_intelligenc.Prelude.{
  ◌*◌, ◌+◌, length, ◌≡◌, ◌≤◌, refl, inl, true, false, string_eq, none, some, List, [], ◌∷◌, All,
  concat_map, nat_eq, arith,
}
use native.Mathlib.Decide.{ℕ_discrete}
use cyber_threat_intelligenc.Prelude.Text.{Text, text_eq, codes, strip, replace, upper}
use cyber_threat_intelligenc.Prelude.Json.{Json, string}
use cyber_threat_intelligenc.Ssrf.{Network}
use cyber_threat_intelligenc.Indicators.{IocType, Confidence, Severity, parse_type}
use cyber_threat_intelligenc.Indicators.Fang.{refang}
use cyber_threat_intelligenc.Indicators.Patterns.{is_hex_of, is_cve}
use cyber_threat_intelligenc.Indicators.Classify.{
  Parsers, ParsedIndicator, classify_indicator, extract_host,
}
use cyber_threat_intelligenc.Indicators.Extract.{harvest, values}
use cyber_threat_intelligenc.Indicators.Extract.Stix.{JsonLibrary, extract_from_stix}
use cyber_threat_intelligenc.Scoring.Engine.{Floats, ScoreSignals, compute_threat_score}
use cyber_threat_intelligenc.Scoring.Engine.Laws.{score_bounds}
use cyber_threat_intelligenc.Enrichment.{Hashing, EnrichmentPolicy, no_facets, enrich}
use cyber_threat_intelligenc.Enrichment.Laws.{enrich_offline}
use cyber_threat_intelligenc.Iocs.{IocRow}
use cyber_threat_intelligenc.Iocs.Store.Laws.{IsUnique}
use cyber_threat_intelligenc.Iocs.Service.{Platform, Session, Submission, prepare, upsert}
use cyber_threat_intelligenc.Iocs.Service.Laws.{IsUpserted, upsert_exact}
use cyber_threat_intelligenc.Iocs.Service.Batch.{
  CollectedIndicator, ingest_from_collector, rerun_enrichment, parse_confidence, parse_severity,
}
use cyber_threat_intelligenc.Iocs.Service.Batch.Laws.{
  ingest_from_collector-IsUnique, rerun_counts_sighting,
}
use cyber_threat_intelligenc.Iocs.Store.{get_by_type_value}
use cyber_threat_intelligenc.Errors.{returned, value_error}
use cyber_threat_intelligenc.Reports.{to_csv}
use cyber_threat_intelligenc.Reports.Laws.{IsInert, to_csv-IsInert}
use cyber_threat_intelligenc.Sharing.{Writers}
use cyber_threat_intelligenc.Sharing.Stix.{to_stix_bundle}
use cyber_threat_intelligenc.Sharing.Stix.Laws.Bundle.{reread, extract-bundle}

abbrev parsers : Parsers
parsers = record { ip_version = λ s. none; urlsplit = λ s. none }

abbrev network : Network
network = record {
  ip_address = λ s. none;
  urlsplit = λ s. none;
  getaddrinfo = λ s n. some (codes "8.8.8.8" ∷ []);
}

-- A resolver that answers nothing.
abbrev silent : Network
silent = record { ip_address = λ s. none; urlsplit = λ s. none; getaddrinfo = λ s n. none }

abbrev hashing : Hashing
hashing = record {
  digest = λ bytes. (1, 2, 3);
  packed = λ s. none;
  encode = λ s. some s;
  ratio = λ m n. 0;
}

abbrev offline : EnrichmentPolicy
offline = record { enable_live_collectors = false; outbound_allowed_hosts = [] }

abbrev floats : Floats
floats = record { one = 1000; decay = λ age. 1000; log_share = λ n. 100 * n }

abbrev platform : Platform
platform = record {
  parsers = parsers;
  network = network;
  hashing = hashing;
  enrichment = offline;
  floats = floats;
  alerting = none;
  ioc_id = λ n. "ioc";
  edge_id = λ n. "edge";
  alert_id = λ n. "alert";
  str = λ s. "text";
  refuses = λ s. none;
}

-- The database refuses whatever is written.
abbrev strict : Platform
strict = record platform { refuses = λ s. some value_error }

abbrev cve_row : IocRow
cve_row = record {
  id = "a";
  type = "cve";
  value = codes "CVE-2024-1234";
  defanged_value = codes "CVE-2024-1234";
  source = "manual";
  confidence = "medium";
  severity = "high";
  status = "active";
  threat_score = 40;
  threat_level = "medium";
  sightings = 1;
  tags = codes "=cmd" ∷ [];
  references = [];
  description = none;
  first_seen = some 5;
  last_seen = some 5;
}

abbrev session : Session
session = record {
  iocs = cve_row ∷ [];
  enrichments = [];
  edges = [];
  audit_logs = [];
  alerts = record {
    rules = [];
    alerts = [];
    bus = record { subscribers = []; queue_size = 10 };
    posted = [];
  };
}

abbrev submission : Submission
submission = record {
  raw_value = codes "cve-2024-1234";
  source = "otx";
  confidence = Confidence.high;
  severity = Severity.high;
  tags = [];
  references = [];
  description = none;
  do_enrich = true;
  user_id = none;
}

abbrev cve : ParsedIndicator
cve = record { type = IocType.cve; value = codes "CVE-2024-1234" }

upsert_exact_example :
    IsUpserted platform "cve" (codes "CVE-2024-1234") session (upsert platform 9 submission session)
unfolding prepare classify_indicator text_eq strip refang ℕ_discrete replace is_hex_of is_cve
    extract_host upper
upsert_exact_example = upsert_exact platform 9 submission cve no_facets session refl

abbrev collected : List CollectedIndicator
collected =
    record {
      value = codes "?";
      source = "otx";
      confidence = Confidence.high;
      severity = Severity.high;
      tags = [];
      references = [];
      description = none;
    }
    ∷ record {
      value = codes "cve-2024-1234";
      source = "otx";
      confidence = Confidence.high;
      severity = Severity.high;
      tags = [];
      references = [];
      description = none;
    }
    ∷ []

ingest_from_collector-IsUnique_example :
    IsUnique (ingest_from_collector platform 9 true collected session).1.iocs
ingest_from_collector-IsUnique_example =
    ingest_from_collector-IsUnique platform 9 true collected session (refl, tt)

rerun_counts_sighting_example :
    let after = rerun_enrichment platform 9 none cve_row session in
    (seen : IocRow) × (after.0 ≡ returned seen)
    × (get_by_type_value "cve" (codes "CVE-2024-1234") after.1.iocs ≡ some seen)
    × (seen.sightings ≡ cve_row.sightings + 1)
unfolding get_by_type_value classify_indicator parse_confidence parse_severity string_eq text_eq
    strip refang ℕ_discrete replace is_hex_of is_cve extract_host upper enrich
rerun_counts_sighting_example =
    rerun_counts_sighting platform 9 none cve_row Confidence.medium Severity.high cve no_facets
      session refl refl refl refl refl refl refl

enrich_offline_example :
    enrich hashing network offline parsers IocType.domain (codes "a.bc")
    ≡ enrich hashing silent offline parsers IocType.domain (codes "a.bc")
enrich_offline_example =
    enrich_offline hashing offline network silent parsers IocType.domain (codes "a.bc")
      (λ host e. inl refl)

abbrev low : ScoreSignals
low s = 200

abbrev high : ScoreSignals
high s = 900

score_bounds_example :
    ((compute_threat_score floats low).score ≤ (compute_threat_score floats high).score)
    × ((compute_threat_score floats high).score ≤ 100)
score_bounds_example = score_bounds floats low high (omega arith) (λ s. omega arith)

to_csv-IsInert_example :
    All (All IsInert) (to_csv (cve_row ∷ [])) × (length (to_csv (cve_row ∷ [])) ≡ 2)
to_csv-IsInert_example = to_csv-IsInert (cve_row ∷ [])

abbrev writers : Writers
writers = record {
  uuid5 = λ s. s;
  timestamp = λ n. codes "now";
  epoch = λ n. codes "0";
  isoformat = λ n. codes "now";
  now = 7;
}

abbrev bundle : Json
bundle = to_stix_bundle writers (codes "us") (codes "bundle--1") (cve_row ∷ [])

-- Every text is the bundle.
abbrev text_of : Json → Text
text_of (string s) = s
text_of _ = []

abbrev json : JsonLibrary
json = record { loads = λ s. some bundle; str = text_of }

extract-bundle_example :
    extract_from_stix json parsers 9 (codes "{}")
    ≡ values parsers (
        harvest parsers 9
          (concat_map (λ (ioc : IocRow). reread (parse_type ioc.type) ioc.value) (cve_row ∷ []))
          [])
unfolding text_eq
extract-bundle_example =
    extract-bundle writers json parsers 9 (codes "us") (codes "bundle--1") (codes "{}")
      (cve_row ∷ []) refl (λ s. refl) (refl, tt)
