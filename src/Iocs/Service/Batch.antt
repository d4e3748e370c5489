-- ===== src/Iocs/Service/Batch.antt =====
-- The methods of `IOCService` around `upsert`: batches, look-ups and queries.
pub mod Laws
pub mod Counts
use cyber_threat_intelligenc.Prelude.{
  ℕ, zero, suc, ◌+◌, ◌-◌, ◌*◌, Bool, true, false, not, String, string_eq, Option, none, some, List,
  [], ◌∷◌, ◌++◌, map, length, if◌then◌else◌, ◌==◌,
}
use cyber_threat_intelligenc.Prelude.Text.{Text}
use cyber_threat_intelligenc.Errors.{Attempt, returned, thrown, Exception, value_error}
use cyber_threat_intelligenc.Indicators.{IocType, Severity, Confidence, type_value}
use cyber_threat_intelligenc.Indicators
use cyber_threat_intelligenc.Indicators.Fang.{defang}
use cyber_threat_intelligenc.Indicators.Classify.{ParsedIndicator, classify_indicator}
use cyber_threat_intelligenc.Indicators.Extract.{Readers, max_indicators}
use cyber_threat_intelligenc.Indicators.Extract.Stix.{JsonLibrary}
use cyber_threat_intelligenc.Indicators.Extract.Dispatch.{extract_indicators}
use cyber_threat_intelligenc.Scoring.Engine.{ScoreResult}
use cyber_threat_intelligenc.Iocs.{IocRow}
use cyber_threat_intelligenc.Iocs.Store.{
  Filters, Sql, get, get_by_type_value, search, count_hits, EnrichmentRecord, get_record,
  list_for_ioc,
}
use cyber_threat_intelligenc.Iocs.Service.{
  Platform, Session, Submission, EnginePayload, upsert, confidence_value, severity_value,
}

-- `CollectedIndicator` of app/collectors/base.py, without the fields that ingestion does not read.
pub record CollectedIndicator : Type 0 where
  pub value : Text
  pub source : String
  pub confidence : Confidence
  pub severity : Severity
  pub tags : List Text
  pub references : List Text
  pub description : Option Text

-- The counts `ingested` and `skipped`.
pub record Summary : Type 0 where
  pub ingested : ℕ
  pub skipped : ℕ

-- A row of the report of a bulk import.
pub data Item : Type 0 where
  imported : Text → String → ℕ → Item
  failed : Text → Exception → Item

pub record ImportReport : Type 0 where
  pub extracted : ℕ
  pub imported_count : ℕ
  pub failed_count : ℕ
  pub items : List Item

pub record Preview : Type 0 where
  pub value : Text
  pub defanged_value : Text
  pub type : String

unfoldable pub submission_of : Bool → CollectedIndicator → Submission
submission_of do_enrich ind = record {
  raw_value = ind.value;
  source = ind.source;
  confidence = ind.confidence;
  severity = ind.severity;
  tags = ind.tags;
  references = ind.references;
  description = ind.description;
  do_enrich = do_enrich;
  user_id = none;
}

-- The rows of the first state. What the second has posted and published stays so.
abbrev rolled_back : Session → Session → Session
rolled_back s s' = record s {
  alerts = record s.alerts { bus = s'.alerts.bus; posted = s'.alerts.posted };
}

-- `async with session.begin_nested()`: a block that raises leaves the rows as they were before it.
unfoldable pub savepoint : {A : Type 0} → Session → Attempt A × Session → Attempt A × Session
savepoint s (returned a, s') = (returned a, s')
savepoint s (thrown e, s') = (thrown e, rolled_back s s')

abbrev one_more : Attempt IocRow → Summary → Summary
one_more (returned row) summary = record summary { ingested = summary.ingested + 1 }
one_more (thrown e) summary = record summary { skipped = summary.skipped + 1 }

abbrev reported : Text → Attempt IocRow → Item
reported value (returned row) = imported row.defanged_value row.type row.threat_score
reported value (thrown e) = failed value e

abbrev is_imported : Item → Bool
is_imported (imported _ _ _) = true
is_imported (failed _ _) = false

unfoldable pub imported_in : List Item → ℕ
imported_in [] = 0
imported_in (i ∷ is) = let rest = imported_in is in if is_imported i then suc rest else rest

-- The values of an enumeration, read back. What no value names is a `ValueError`.
unfoldable pub parse_confidence : String → Attempt Confidence
parse_confidence s =
    if s == "unknown"
    then returned Confidence.unknown
    else if s == "low"
    then returned Confidence.low
    else if s == "medium"
    then returned Confidence.medium
    else if s == "high"
    then returned Confidence.high
    else if s == "confirmed"
    then returned Confidence.confirmed
    else thrown value_error

unfoldable pub parse_severity : String → Attempt Severity
parse_severity s =
    if s == "info"
    then returned Severity.info
    else if s == "low"
    then returned Severity.low
    else if s == "medium"
    then returned Severity.medium
    else if s == "high"
    then returned Severity.high
    else if s == "critical"
    then returned Severity.critical
    else thrown value_error

abbrev pub rerun_of : Option String → IocRow → Confidence → Severity → Submission
rerun_of user_id row confidence severity = record {
  raw_value = row.value;
  source = row.source;
  confidence = confidence;
  severity = severity;
  tags = [];
  references = [];
  description = none;
  do_enrich = true;
  user_id = user_id;
}

module _ (W : Platform) where
  -- The flushes of a block inside a savepoint. One that the database refuses raises with what the
  -- block has written still in the session. It is the last here: what a refusal in between would
  -- have kept from the session is rolled back in any case.
  unfoldable pub flushed : {A : Type 0} → Attempt A × Session → Attempt A × Session
  flushed (thrown e, s) = (thrown e, s)
  flushed (returned a, s) = elim (W.refuses s) [ none ↦ (returned a, s) | some e ↦ (thrown e, s) ]

  -- The loop of `ingest_from_collector`, whose turns take place at `now`.
  unfoldable pub ingest_loop :
      ℕ → Bool → List CollectedIndicator → Summary → Session → Summary × Session
  unfolding savepoint flushed submission_of upsert
  ingest_loop now do_enrich [] summary s = (summary, s)
  ingest_loop now do_enrich (ind ∷ inds) summary s =
      let (r, s') = savepoint s (flushed (upsert W now (submission_of do_enrich ind) s)) in
      ingest_loop now do_enrich inds (one_more r summary) s'

  unfoldable pub ingest_from_collector :
      ℕ → Bool → List CollectedIndicator → Session → Summary × Session
  unfolding ingest_loop
  ingest_from_collector now do_enrich inds s =
      ingest_loop now do_enrich inds (record { ingested = 0; skipped = 0 }) s

  -- The loop of `bulk_import`; `sub` holds the arguments that all values share.
  unfoldable pub import_loop : ℕ → Submission → List Text → Session → List Item × Session
  unfolding savepoint flushed upsert
  import_loop now sub [] s = ([], s)
  import_loop now sub (value ∷ values) s =
      let (r, s') = savepoint s (flushed (upsert W now (record sub { raw_value = value }) s)) in
      let (items, s'') = import_loop now sub values s' in (reported value r ∷ items, s'')

  import_values : ℕ → Submission → Session → Attempt (List Text) → Attempt ImportReport × Session
  unfolding import_loop imported_in
  import_values now sub s (thrown e) = (thrown e, s)
  import_values now sub s (returned values) =
      let (items, s') = import_loop now sub values s in
      (
        returned (record {
          extracted = length values;
          imported_count = imported_in items;
          failed_count = length values - imported_in items;
          items = items;
        }),
        s',
      )

  unfoldable pub bulk_import :
      Readers
      → JsonLibrary
      → ℕ
      → Text
      → String
      → ℕ
      → Submission
      → Session
      → Attempt ImportReport × Session
  unfolding import_values extract_indicators
  bulk_import R J now content fmt limit sub s =
      import_values now sub s (extract_indicators W.parsers R J limit fmt content)

  -- The loop of `preview_extraction`.
  abbrev preview_of : ParsedIndicator → Preview
  preview_of p = record {
    value = p.value;
    defanged_value = defang p.value;
    type = type_value p.type;
  }

  abbrev prepend : Attempt ParsedIndicator → Attempt (List Preview) → Attempt (List Preview)
  prepend (thrown e) rest = thrown e
  prepend (returned p) (thrown e) = thrown e
  prepend (returned p) (returned ps) = returned (preview_of p ∷ ps)

  unfoldable pub preview_loop : List Text → Attempt (List Preview)
  unfolding classify_indicator defang
  preview_loop [] = returned []
  preview_loop (value ∷ values) = prepend (classify_indicator W.parsers value) (preview_loop values)

  abbrev preview_values : Attempt (List Text) → Attempt (List Preview)
  preview_values (thrown e) = thrown e
  preview_values (returned values) = preview_loop values

  unfoldable pub preview_extraction : Readers → JsonLibrary → Text → String → Attempt (List Preview)
  unfolding preview_loop extract_indicators
  preview_extraction R J content fmt =
      preview_values (extract_indicators W.parsers R J max_indicators fmt content)

  rerun_with :
      ℕ
      → Option String
      → IocRow
      → Session
      → Attempt Confidence
      → Attempt Severity
      → Attempt IocRow × Session
  unfolding upsert
  rerun_with now user_id row s (thrown e) severity = (thrown e, s)
  rerun_with now user_id row s (returned confidence) (thrown e) = (thrown e, s)
  rerun_with now user_id row s (returned confidence) (returned severity) =
      upsert W now (rerun_of user_id row confidence severity) s

  unfoldable pub rerun_enrichment : ℕ → Option String → IocRow → Session → Attempt IocRow × Session
  unfolding rerun_with parse_confidence parse_severity
  rerun_enrichment now user_id row s =
      rerun_with now user_id row s (parse_confidence row.confidence) (parse_severity row.severity)

  found : Session → Attempt ParsedIndicator → Attempt (Option IocRow)
  unfolding get_by_type_value
  found s (thrown e) = thrown e
  found s (returned p) = returned (get_by_type_value (type_value p.type) p.value s.iocs)

  unfoldable pub lookup : Text → Session → Attempt (Option IocRow)
  unfolding found classify_indicator
  lookup raw_value s = found s (classify_indicator W.parsers raw_value)

unfoldable pub get_ioc : String → Session → Option IocRow
unfolding get
get_ioc ioc_id s = get ioc_id s.iocs

unfoldable pub enrichments_for : String → Session → List (EnrichmentRecord EnginePayload)
unfolding list_for_ioc
enrichments_for ioc_id s = list_for_ioc ioc_id s.enrichments

unfoldable pub explain : String → Session → Option ScoreResult
unfolding get_record
explain ioc_id s = elim (get_record ioc_id "engine" s.enrichments) [
  | none ↦ none
  | some r ↦ some r.payload.score
]

module _ (Q : Sql) where
  -- `search` of the service, for a page from 1 on.
  unfoldable pub search_page : Filters → ℕ → ℕ → Session → List IocRow × ℕ
  unfolding search count_hits
  search_page f page page_size s =
      (search Q f page_size ((page - 1) * page_size) s.iocs, count_hits Q f s.iocs)

  unfoldable pub list_for_report : Filters → ℕ → Session → List IocRow
  unfolding search
  list_for_report f limit s = search Q (record f { status = none }) limit 0 s.iocs
