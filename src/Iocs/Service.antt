-- ===== src/Iocs/Service.antt =====
-- `IOCService` of app/services/ioc_service.py. The clock, the keys of new rows and `str` of a text
-- are parameters, and what enrichment, alerting and extraction take.
pub mod Batch
pub mod Laws
use cyber_threat_intelligenc.Prelude.{
  ℕ, zero, suc, ◌+◌, ◌-◌, ◌*◌, ◌/◌, Bool, true, false, not, String, string_eq, Option, none, some,
  List, [], ◌∷◌, ◌++◌, map, contains, length, if◌then◌else◌, ◌==◌, nat_eq,
}
use cyber_threat_intelligenc.Prelude.Text.{Text, text_eq, codes}
use cyber_threat_intelligenc.Prelude.Sort.{sorted_set, decimal}
use cyber_threat_intelligenc.Errors.{Attempt, returned, thrown, Exception}
use cyber_threat_intelligenc.Auth.Store.{AuditLog}
use cyber_threat_intelligenc.Auth.Users.{audit}
use cyber_threat_intelligenc.Ssrf.{Network}
use cyber_threat_intelligenc.Alerts
use cyber_threat_intelligenc.Alerts.{Policy, evaluate_ioc}
use cyber_threat_intelligenc.Correlation.{Edges, upsert_edge, make_ref}
use cyber_threat_intelligenc.Indicators
use cyber_threat_intelligenc.Indicators.{
  IocType, ipv4, ipv6, domain, url, Severity, Confidence, ThreatLevel, type_value,
}
use cyber_threat_intelligenc.Indicators.Fang.{defang}
use cyber_threat_intelligenc.Indicators.Classify.{
  Parsers, ParsedIndicator, classify_indicator, extract_host, ip_type,
}
use cyber_threat_intelligenc.Scoring.{confidence_fifths}
use cyber_threat_intelligenc.Scoring.Engine.{Floats, ScoreResult, compute_threat_score}
use cyber_threat_intelligenc.Enrichment.{
  Hashing, EnrichmentPolicy, Facets, Dns, no_facets, enrich, signals_from, reputable_sources,
}
use cyber_threat_intelligenc.Iocs.{IocRow}
use cyber_threat_intelligenc.Iocs.Store.{
  get_by_type_value, change_row, EnrichmentRecord, upsert_record,
}

-- The payload of the record "engine".
pub record EnginePayload : Type 0 where
  pub facets : Facets
  pub score : ScoreResult

-- The session's rows, and what alerting keeps. A confidence of an edge is in tenths.
pub record Session : Type 0 where
  pub iocs : List IocRow
  pub enrichments : List (EnrichmentRecord EnginePayload)
  pub edges : Edges ℕ
  pub audit_logs : List AuditLog
  pub alerts : Alerts.State

-- The values of the enumerations.
abbrev pub confidence_value : Confidence → String
confidence_value Confidence.unknown = "unknown"
confidence_value Confidence.low = "low"
confidence_value Confidence.medium = "medium"
confidence_value Confidence.high = "high"
confidence_value Confidence.confirmed = "confirmed"

abbrev pub severity_value : Severity → String
severity_value Severity.info = "info"
severity_value Severity.low = "low"
severity_value Severity.medium = "medium"
severity_value Severity.high = "high"
severity_value Severity.critical = "critical"

abbrev pub level_value : ThreatLevel → String
level_value ThreatLevel.clean = "clean"
level_value ThreatLevel.low = "low"
level_value ThreatLevel.medium = "medium"
level_value ThreatLevel.high = "high"
level_value ThreatLevel.critical = "critical"

pub record Platform : Type 0 where
  pub parsers : Parsers
  pub network : Network
  pub hashing : Hashing
  pub enrichment : EnrichmentPolicy
  pub floats : Floats
  -- Alerting, if the service has it: the settings and the remote end of a web hook.
  pub alerting : Option (Policy × (Text → Bool))
  -- The keys of new rows, by what the table holds.
  pub ioc_id : ℕ → String
  pub edge_id : ℕ → String
  pub alert_id : ℕ → String
  pub str : Text → String
  -- What the database raises at the flushes of a block that runs in a savepoint, such as for a key
  -- that another session has inserted, by what the block has written.
  pub refuses : Session → Option Exception

-- The arguments of `upsert`.
pub record Submission : Type 0 where
  pub raw_value : Text
  pub source : String
  pub confidence : Confidence
  pub severity : Severity
  pub tags : List Text
  pub references : List Text
  pub description : Option Text
  pub do_enrich : Bool
  pub user_id : Option String

abbrev alert_view : IocRow → Alerts.Ioc
alert_view row = record {
  id = row.id;
  type = row.type;
  defanged_value = row.defanged_value;
  severity = row.severity;
  source = row.source;
  threat_score = row.threat_score;
  threat_level = row.threat_level;
}

-- `description and not ioc.description`
abbrev described : Option Text → Option Text → Option Text
described (some (c ∷ s)) none = some (c ∷ s)
described (some (c ∷ s)) (some []) = some (c ∷ s)
described new old = old

-- `if references: ...`
merged : List Text → List Text → List Text
unfolding sorted_set
merged [] old = old
merged (r ∷ rs) old = sorted_set (old ++ r ∷ rs)

abbrev seen_before : Option IocRow → ℕ
seen_before none = 0
seen_before (some row) = row.sightings

-- `max(0.0, now - first_seen)`
abbrev age_at : ℕ → Option IocRow → ℕ
age_at now none = 0
age_at now (some row) = elim row.first_seen [ none ↦ 0 | some first_seen ↦ now - first_seen ]

module _ (W : Platform) where
  -- The two steps of `upsert` that can raise, before it touches a row.
  unfoldable pub with_facets : ParsedIndicator → Attempt Facets → Attempt (ParsedIndicator × Facets)
  with_facets parsed (returned facets) = returned (parsed, facets)
  with_facets parsed (thrown e) = thrown e

  unfoldable pub prepare_parsed :
      Bool → Attempt ParsedIndicator → Attempt (ParsedIndicator × Facets)
  unfolding with_facets enrich
  prepare_parsed do_enrich (thrown e) = thrown e
  prepare_parsed do_enrich (returned parsed) =
      if do_enrich
      then with_facets parsed
          (enrich W.hashing W.network W.enrichment W.parsers parsed.type parsed.value)
      else returned (parsed, no_facets)

  unfoldable pub prepare : Submission → Attempt (ParsedIndicator × Facets)
  unfolding prepare_parsed classify_indicator
  prepare sub = prepare_parsed sub.do_enrich (classify_indicator W.parsers sub.raw_value)

  unfoldable pub score_of : ℕ → Submission → Facets → Option IocRow → ScoreResult
  unfolding compute_threat_score signals_from
  score_of now sub facets existing = compute_threat_score W.floats (
      signals_from W.floats facets sub.source (confidence_fifths sub.confidence * W.floats.one / 5)
        (contains reputable_sources sub.source) (seen_before existing + 1) (age_at now existing))

  unfoldable pub created_row : String → ℕ → Submission → ParsedIndicator → ScoreResult → IocRow
  unfolding defang sorted_set
  created_row id now sub parsed score = record {
    id = id;
    type = type_value parsed.type;
    value = parsed.value;
    defanged_value = defang parsed.value;
    source = sub.source;
    confidence = confidence_value sub.confidence;
    severity = severity_value sub.severity;
    status = "active";
    threat_score = score.score;
    threat_level = level_value score.level;
    sightings = 1;
    tags = sorted_set sub.tags;
    references = sub.references;
    description = sub.description;
    first_seen = some now;
    last_seen = some now;
  }

  unfoldable pub updated_row : ℕ → Submission → ScoreResult → IocRow → IocRow
  unfolding sorted_set merged
  updated_row now sub score row = record row {
    threat_score = score.score;
    threat_level = level_value score.level;
    sightings = row.sightings + 1;
    last_seen = some now;
    tags = sorted_set (row.tags ++ sub.tags);
    description = described sub.description row.description;
    references = merged sub.references row.references;
  }

  -- What `upsert` leaves as the row of the indicator, and the table with it.
  unfoldable pub stored :
      ℕ
      → Submission
      → ParsedIndicator
      → ScoreResult
      → Option IocRow
      → List IocRow
      → IocRow × List IocRow
  unfolding created_row updated_row change_row
  stored now sub parsed score none rows =
      let row = created_row (W.ioc_id (length rows)) now sub parsed score in (row, rows ++ row ∷ [])
  stored now sub parsed score (some old) rows = (
    updated_row now sub score old,
    change_row (type_value parsed.type) parsed.value (updated_row now sub score) rows,
  )

  -- `_ref_type_for_host`
  unfoldable pub ref_type_for_host : Text → String
  unfolding ip_type
  ref_type_for_host host = elim (ip_type W.parsers host) [
    | none ↦ type_value domain
    | some t ↦ type_value t
  ]

  abbrev ref_of : String → Text → String
  ref_of t value = W.str (make_ref (codes t) value)

  abbrev put_edge : String → String → String → ℕ → String → Edges ℕ → Edges ℕ
  put_edge s t relationship confidence source edges =
      (upsert_edge (W.edge_id (length edges)) s t relationship confidence source edges).1

  -- `upsert` has split the URL before, so that it can be split.
  host_edge : String → String → Attempt (Option Text) → Edges ℕ → Edges ℕ
  unfolding ref_type_for_host upsert_edge make_ref
  host_edge self source (returned (some (c ∷ host))) edges =
      put_edge self (ref_of (ref_type_for_host (c ∷ host)) (c ∷ host)) "communicates-with" 9 source
        edges
  host_edge self source _ edges = edges

  abbrev url_edge : String → String → ParsedIndicator → Edges ℕ → Edges ℕ
  url_edge self source parsed edges = elim parsed.type [
    | url ↦ host_edge self source (extract_host W.parsers parsed.value url) edges
    | _ ↦ edges
  ]

  resolved_edges : String → List Text → Edges ℕ → Edges ℕ
  unfolding ref_type_for_host upsert_edge make_ref
  resolved_edges self [] edges = edges
  resolved_edges self (ip ∷ ips) edges =
      resolved_edges self ips
        (put_edge self (ref_of (ref_type_for_host ip) ip) "resolves-to" 8 "dns" edges)

  abbrev resolved_of : Option Dns → List Text
  resolved_of none = []
  resolved_of (some dns) = dns.resolved

  -- `_auto_correlate`
  unfoldable pub auto_correlate : ParsedIndicator → Facets → String → Edges ℕ → Edges ℕ
  unfolding host_edge resolved_edges make_ref extract_host
  auto_correlate parsed facets source edges =
      let self = ref_of (type_value parsed.type) parsed.value in
      resolved_edges self (resolved_of facets.dns) (url_edge self source parsed edges)

  abbrev alerted : Option (Policy × (Text → Bool)) → IocRow → Alerts.State → Alerts.State
  alerted none row alerts = alerts
  alerted (some (policy, post)) row alerts =
      (evaluate_ioc W.network policy post W.alert_id (alert_view row) alerts).1

  abbrev action_of : Option IocRow → String
  action_of none = "ioc.create"
  action_of (some row) = "ioc.update"

  -- `upsert` behind the steps that can raise.
  unfoldable pub write : ℕ → Submission → ParsedIndicator × Facets → Session → IocRow × Session
  unfolding score_of stored auto_correlate decimal get_by_type_value upsert_record evaluate_ioc
  write now sub (parsed, facets) s =
      let existing = get_by_type_value (type_value parsed.type) parsed.value s.iocs in
      let score = score_of now sub facets existing in
      let (row, rows) = stored now sub parsed score existing s.iocs in
      (
        row,
        record s {
          iocs = rows;
          enrichments =
              upsert_record row.id "engine" (record { facets = facets; score = score })
                s.enrichments;
          edges = auto_correlate parsed facets sub.source s.edges;
          audit_logs =
              s.audit_logs
              ++ audit (action_of existing) sub.user_id (
                  ("type", type_value parsed.type)
                  ∷ ("score", W.str (decimal score.score))
                  ∷ ("source", sub.source)
                  ∷ [])
                ∷ [];
          alerts = alerted W.alerting row s.alerts;
        },
      )

  upsert_prepared :
      ℕ → Submission → Attempt (ParsedIndicator × Facets) → Session → Attempt IocRow × Session
  unfolding write
  upsert_prepared now sub (thrown e) s = (thrown e, s)
  upsert_prepared now sub (returned prepared) s =
      let (row, s') = write now sub prepared s in (returned row, s')

  -- `upsert`, at the time `now`, when the database accepts what is flushed.
  unfoldable pub upsert : ℕ → Submission → Session → Attempt IocRow × Session
  unfolding upsert_prepared prepare
  upsert now sub s = upsert_prepared now sub (prepare sub) s
