-- ===== src/Iocs/Store.antt =====
-- The tables and queries of app/repositories/ioc_repository.py and enrichment_repository.py. SQL's
-- ILIKE and ORDER BY are parameters.
pub mod Laws
use cyber_threat_intelligenc.Prelude.{
  ℕ, zero, suc, ◌+◌, ◌-◌, ◌*◌, Bool, true, false, not, ◌&&◌, ◌||◌, String, string_eq, Option, none,
  some, List, [], ◌∷◌, ◌++◌, map, keep, count, find?, length, take, drop, leb, if◌then◌else◌, ◌==◌,
  nat_eq,
}
use cyber_threat_intelligenc.Prelude.Text.{Text, text_eq, codes, replace}
use cyber_threat_intelligenc.Prelude.Dict.{Dict, lookup, insert}
use cyber_threat_intelligenc.Iocs.{IocRow}

abbrev pub is_row : String → Text → IocRow → Bool
is_row type value row = row.type == type && row.value == value

-- `get_by_type_value`
unfoldable pub get_by_type_value : String → Text → List IocRow → Option IocRow
get_by_type_value type value rows = find? (is_row type value) rows

-- `get`, by the key of the row.
unfoldable pub get : String → List IocRow → Option IocRow
get id rows = find? (λ (r : IocRow). r.id == id) rows

-- Assignments to the attributes of the row that `get_by_type_value` returned, flushed.
unfoldable pub change_row : String → Text → (IocRow → IocRow) → List IocRow → List IocRow
change_row type value f [] = []
change_row type value f (r ∷ rs) =
    let rest = change_row type value f rs in if is_row type value r then f r ∷ rs else r ∷ rest

-- The filters of a search; an empty text is no filter.
pub record Filters : Type 0 where
  pub ioc_type : Option String
  pub min_score : Option ℕ
  pub threat_level : Option String
  pub source : Option String
  pub status : Option String
  pub query : Option Text

-- `IOC.value.ilike(pattern, escape="\\")`, and the rows in the order of a query.
pub record Sql : Type 0 where
  pub ilike : Text → Text → Bool
  pub by_score : List IocRow → List IocRow
  pub by_score_and_update : List IocRow → List IocRow

-- `_escape_like`
unfoldable pub escape_like : Text → Text
unfolding replace
escape_like term =
    replace (codes "_") (codes "\\_")
      (replace (codes "%") (codes "\\%") (replace (codes "\\") (codes "\\\\") term))

abbrev equals : Option String → String → Bool
equals none column = true
equals (some wanted) column = wanted == "" || column == wanted

abbrev at_least : Option ℕ → ℕ → Bool
at_least none column = true
at_least (some bound) column = leb bound column

module _ (Q : Sql) where
  abbrev ilike_column : Option Text → Text → Bool
  ilike_column none pattern = false
  ilike_column (some text) pattern = Q.ilike text pattern

  contains_term : Option Text → IocRow → Bool
  unfolding escape_like
  contains_term none row = true
  contains_term (some []) row = true
  contains_term (some (c ∷ term)) row =
      let pattern = 37 ∷ escape_like (c ∷ term) ++ 37 ∷ [] in
      Q.ilike row.value pattern || ilike_column row.description pattern

  -- `_filtered`
  unfoldable pub is_hit : Filters → IocRow → Bool
  unfolding contains_term
  is_hit f row =
      equals f.ioc_type row.type
      && (at_least f.min_score row.threat_score
          && (equals f.threat_level row.threat_level
              && (equals f.source row.source
                  && (equals f.status row.status && contains_term f.query row))))

  unfoldable pub search : Filters → ℕ → ℕ → List IocRow → List IocRow
  unfolding is_hit
  search f limit offset rows =
      take limit (drop offset (Q.by_score_and_update (keep (is_hit f) rows)))

  -- `count`
  unfoldable pub count_hits : Filters → List IocRow → ℕ
  unfolding is_hit
  count_hits f rows = length (keep (is_hit f) rows)

  unfoldable pub top : ℕ → List IocRow → List IocRow
  top limit rows = take limit (Q.by_score rows)

-- One row of a `GROUP BY`, counted.
unfoldable pub counted : String → Dict String ℕ → Dict String ℕ
unfolding lookup insert
counted k counts = elim (lookup k counts) [
  | none ↦ insert k 1 counts
  | some n ↦ insert k (n + 1) counts
]

unfoldable pub count_by : (IocRow → String) → List IocRow → Dict String ℕ
unfolding counted
count_by column [] = []
count_by column (r ∷ rs) = counted (column r) (count_by column rs)

unfoldable pub count_by_level : List IocRow → Dict String ℕ
unfolding count_by
count_by_level rows = count_by (λ (r : IocRow). r.threat_level) rows

unfoldable pub count_by_type : List IocRow → Dict String ℕ
unfolding count_by
count_by_type rows = count_by (λ (r : IocRow). r.type) rows

unfoldable pub count_by_source : List IocRow → Dict String ℕ
unfolding count_by
count_by_source rows = count_by (λ (r : IocRow). r.source) rows

abbrev pub total : List IocRow → ℕ
total rows = length rows

-- The table `enrichments`.
pub record EnrichmentRecord (A : Type 0) : Type 0 where
  pub ioc_id : String
  pub provider : String
  pub payload : A

module _ {A : Type 0} where
  abbrev pub is_record : String → String → EnrichmentRecord A → Bool
  is_record ioc_id provider r = r.ioc_id == ioc_id && r.provider == provider

  unfoldable pub get_record :
      String → String → List (EnrichmentRecord A) → Option (EnrichmentRecord A)
  get_record ioc_id provider records = find? (is_record ioc_id provider) records

  -- `EnrichmentRepository.upsert`: the data of the row that is there, or a new row.
  unfoldable pub upsert_record :
      String → String → A → List (EnrichmentRecord A) → List (EnrichmentRecord A)
  upsert_record ioc_id provider payload [] =
      record { ioc_id = ioc_id; provider = provider; payload = payload } ∷ []
  upsert_record ioc_id provider payload (r ∷ rs) =
      let rest = upsert_record ioc_id provider payload rs in
      if is_record ioc_id provider r then record r { payload = payload } ∷ rs else r ∷ rest

  unfoldable pub list_for_ioc : String → List (EnrichmentRecord A) → List (EnrichmentRecord A)
  list_for_ioc ioc_id records = keep (λ (r : EnrichmentRecord A). r.ioc_id == ioc_id) records
