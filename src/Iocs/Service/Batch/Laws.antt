-- ===== src/Iocs/Service/Batch/Laws.antt =====
-- What a batch leaves behind, and what the queries around `upsert` answer.
use mathlib.Core.Path.{subst}
use cyber_threat_intelligenc.Prelude.{
  ℕ, ◌+◌, ◌-◌, ◌*◌, ◌≡◌, refl, sym, inl, inr, Bool, String, Option, Option-cases, some, List, [],
  ◌∷◌, length, min,
}
use cyber_threat_intelligenc.Errors.{Attempt, returned, thrown}
use cyber_threat_intelligenc.Indicators.{Confidence, Severity, type_value}
use cyber_threat_intelligenc.Indicators.Classify.{ParsedIndicator, classify_indicator}
use cyber_threat_intelligenc.Enrichment.{Facets, enrich}
use cyber_threat_intelligenc.Iocs.{IocRow}
use cyber_threat_intelligenc.Iocs.Store.{Filters, Sql, get_by_type_value}
use cyber_threat_intelligenc.Iocs.Store.Laws.{IsUnique, search_counted}
use cyber_threat_intelligenc.Iocs.Service.{
  Platform, Session, prepare, prepare_parsed, with_facets, upsert,
}
use cyber_threat_intelligenc.Iocs.Service.Laws.{upsert-IsUnique, upsert_exact}
use cyber_threat_intelligenc.Iocs.Service.Batch.{
  CollectedIndicator, Summary, submission_of, savepoint, flushed, one_more, ingest_loop,
  ingest_from_collector, parse_confidence, parse_severity, rerun_of, rerun_with, rerun_enrichment,
  search_page,
}

savepoint-IsUnique :
    {A : Type 0} (s : Session) (r : Attempt A × Session)
    → IsUnique s.iocs
    → IsUnique r.1.iocs
    → IsUnique (savepoint s r).1.iocs
unfolding savepoint
savepoint-IsUnique s (returned a, s') before after = after
savepoint-IsUnique s (thrown e, s') before after = before

module _ (W : Platform) where
  flushed-state : {A : Type 0} (r : Attempt A × Session) → (flushed W r).1 ≡ r.1
  unfolding flushed
  flushed-state (thrown e, s) = refl
  flushed-state (returned a, s) = elim (Option-cases (W.refuses s)) [
    | inl accepted ↦ rw (accepted, flushed) refl
    | inr (e, refused) ↦ rw (refused, flushed) refl
  ]

  loop-IsUnique :
      (now : ℕ) (enriched : Bool) (inds : List CollectedIndicator) (summary : Summary) (s : Session)
      → IsUnique s.iocs
      → IsUnique (ingest_loop W now enriched inds summary s).1.iocs
  unfolding ingest_loop
  loop-IsUnique now enriched [] summary s unique = unique
  loop-IsUnique now enriched (ind ∷ inds) summary s unique =
      let raw = upsert W now (submission_of enriched ind) s in
      let r = savepoint s (flushed W raw) in
      let written : IsUnique (flushed W raw).1.iocs =
        subst (λ (x : Session). IsUnique x.iocs) (sym (flushed-state raw))
          (upsert-IsUnique W now (submission_of enriched ind) s unique) in
      loop-IsUnique now enriched inds (one_more r.0 summary) r.1
        (savepoint-IsUnique s (flushed W raw) unique written)

  -- Whatever a collector hands over, and whichever of it fails, no two rows of the table come to
  -- have the same type and value.
  pub ingest_from_collector-IsUnique :
      (now : ℕ) (enriched : Bool) (inds : List CollectedIndicator) (s : Session)
      → IsUnique s.iocs
      → IsUnique (ingest_from_collector W now enriched inds s).1.iocs
  unfolding ingest_from_collector
  ingest_from_collector-IsUnique now enriched inds s unique =
      loop-IsUnique now enriched inds (record { ingested = 0; skipped = 0 }) s unique

  rerun_ready :
      (user_id : Option String) (row : IocRow) (confidence : Confidence) (severity : Severity)
      (p : ParsedIndicator) (facets : Facets)
      → classify_indicator W.parsers row.value ≡ returned p
      → enrich W.hashing W.network W.enrichment W.parsers p.type p.value ≡ returned facets
      → prepare W (rerun_of user_id row confidence severity) ≡ returned (p, facets)
  unfolding prepare prepare_parsed with_facets
  rerun_ready user_id row confidence severity p facets known enriched =
      rw (known, prepare_parsed, enriched) refl

  -- A row of the table whose confidence and severity are values of their enumerations, whose value is
  -- classified as its own type and value, and whose enrichment succeeds, counts as seen once more
  -- when `rerun_enrichment` is asked for it.
  pub rerun_counts_sighting :
      (now : ℕ) (user_id : Option String) (row : IocRow) (confidence : Confidence)
      (severity : Severity) (p : ParsedIndicator) (facets : Facets) (s : Session)
      → get_by_type_value row.type row.value s.iocs ≡ some row
      → parse_confidence row.confidence ≡ returned confidence
      → parse_severity row.severity ≡ returned severity
      → classify_indicator W.parsers row.value ≡ returned p
      → type_value p.type ≡ row.type
      → p.value ≡ row.value
      → enrich W.hashing W.network W.enrichment W.parsers p.type p.value ≡ returned facets
      → let after = rerun_enrichment W now user_id row s in
        (seen : IocRow) × (after.0 ≡ returned seen)
        × (get_by_type_value row.type row.value after.1.iocs ≡ some seen)
        × (seen.sightings ≡ row.sightings + 1)
  unfolding rerun_enrichment rerun_with
  rerun_counts_sighting now user_id row confidence severity p facets s held c v known same_type
        same_value enriched =
      let (seen, answered, here, sighted, others) =
        upsert_exact W now (rerun_of user_id row confidence severity) p facets s
          (rerun_ready user_id row confidence severity p facets known enriched) in
      (
        seen,
        rw (c, v, rerun_with) answered,
        rw (c, v, rerun_with) (rw (same_type, same_value) at here),
        rw (same_type, same_value, held) at sighted,
      )

-- A page of a search holds as many of the rows that `total` counts as are left behind the pages
-- before it, and at most `page_size`. The order of the query drops and repeats no row.
search_page_counts :
    (Q : Sql) (f : Filters) (page page_size : ℕ) (s : Session)
    → ((rows : List IocRow) → length (Q.by_score_and_update rows) ≡ length rows)
    → length (search_page Q f page page_size s).0
      ≡ min page_size ((search_page Q f page page_size s).1 - (page - 1) * page_size)
unfolding search_page
search_page_counts Q f page page_size s counts =
    search_counted Q f page_size ((page - 1) * page_size) s.iocs counts
