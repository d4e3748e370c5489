-- ===== src/Reports.antt =====
-- `ReportService` of app/services/report_service.py. The libraries `json`, `csv` and `datetime` are
-- parameters.
pub mod Laws
use cyber_threat_intelligenc.Prelude.{
  ℕ, Bool, true, false, ◌||◌, String, string_eq, Option, none, some, List, [], ◌∷◌, ◌++◌, map, any,
  length, concat_map, if◌then◌else◌, ◌==◌, nat_eq, is_some,
}
use cyber_threat_intelligenc.Prelude.Text.{Text, text_eq, codes, starts_with, replace, upper_char}
use cyber_threat_intelligenc.Prelude.Sort.{decimal}
use cyber_threat_intelligenc.Prelude.Dict.{Dict, lookup}
use cyber_threat_intelligenc.Prelude.Json.{
  Json, null, number, string, array, object, items, members,
}
use cyber_threat_intelligenc.Iocs.{IocRow}
use cyber_threat_intelligenc.Sharing.{Writers}
use cyber_threat_intelligenc.Sharing.Stix.{to_stix_bundle}
use cyber_threat_intelligenc.Sharing.Misp.{to_misp_event}

-- `_FORMULA_PREFIXES`
abbrev pub formula_prefixes : List Text
formula_prefixes = codes "=" ∷ codes "+" ∷ codes "-" ∷ codes "@" ∷ (9 ∷ []) ∷ (13 ∷ []) ∷ []

-- What a row of a report holds: a text, or a number.
pub data Cell : Type 0 where
  text : Text → Cell
  count : ℕ → Cell

unfoldable pub is_formula : Text → Bool
unfolding starts_with
is_formula value = any (λ p. starts_with value p) formula_prefixes

-- `_csv_safe`
unfoldable pub csv_safe : Cell → Cell
unfolding is_formula
csv_safe (count n) = count n
csv_safe (text value) = text (if is_formula value then 39 ∷ value else value)

-- `",".join(tags)`
abbrev join_commas : List Text → Text
join_commas [] = []
join_commas (s ∷ []) = s
join_commas (s ∷ t ∷ ts) = s ++ 44 ∷ join_commas (t ∷ ts)

-- The columns of the CSV export, each with its cell.
unfoldable pub csv_row : IocRow → List Cell
csv_row ioc =
    text (codes ioc.type)
    ∷ text ioc.defanged_value
    ∷ count ioc.threat_score
    ∷ text (codes ioc.threat_level)
    ∷ text (codes ioc.severity)
    ∷ text (codes ioc.source)
    ∷ text (join_commas ioc.tags)
    ∷ []

abbrev pub columns : List String
columns = "type" ∷ "value" ∷ "threat_score" ∷ "threat_level" ∷ "severity" ∷ "source" ∷ "tags" ∷ []

abbrev cell_json : Cell → Json
cell_json (text s) = string s
cell_json (count n) = number n

abbrev time_json : Writers → Option ℕ → Json
time_json W none = null
time_json W (some time) = string (W.isoformat time)

abbrev zip_fields : List String → List Cell → List (Text × Json)
zip_fields [] cells = []
zip_fields (c ∷ cs) [] = []
zip_fields (c ∷ cs) (cell ∷ cells) = (codes c, cell_json cell) ∷ zip_fields cs cells

-- `_row`: the columns of the CSV export and the two times.
unfoldable pub row : Writers → IocRow → Json
unfolding csv_row
row W ioc = object (
    members (
      zip_fields columns (csv_row ioc)
      ++ (codes "first_seen", time_json W ioc.first_seen)
        ∷ (codes "last_seen", time_json W ioc.last_seen)
        ∷ []))

-- The value that `json.dumps` gets.
unfoldable pub to_json : Writers → List IocRow → Json
unfolding row
to_json W iocs = array (items (map (row W) iocs))

-- The rows that `csv.writer` gets.
unfoldable pub to_csv : List IocRow → List (List Cell)
unfolding csv_safe csv_row
to_csv iocs = map (λ c. text (codes c)) columns ∷ map (λ ioc. map csv_safe (csv_row ioc)) iocs

abbrev lines : List Text → Text
lines [] = []
lines (line ∷ rest) = line ++ 10 ∷ lines rest

unfoldable pub markdown_line : IocRow → Text
unfolding replace decimal
markdown_line ioc =
    codes "| "
    ++ codes ioc.type
    ++ codes " | `"
    ++ replace (codes "|") (codes "\\|") ioc.defanged_value
    ++ codes "` | "
    ++ decimal ioc.threat_score
    ++ codes " | "
    ++ codes ioc.threat_level
    ++ codes " | "
    ++ codes ioc.source
    ++ codes " |"

unfoldable pub to_markdown : Text → List IocRow → Text
unfolding markdown_line decimal
to_markdown title iocs = lines (
    (codes "# " ++ title)
    ∷ []
    ∷ (codes "Total indicators: **" ++ decimal (length iocs) ++ codes "**")
    ∷ []
    ∷ codes "| Type | Indicator | Score | Level | Source |"
    ∷ codes "| --- | --- | --- | --- | --- |"
    ∷ map markdown_line iocs)

-- The value that `json.dumps` gets.
unfoldable pub to_stix : Writers → Text → List IocRow → Json
unfolding to_stix_bundle
to_stix W bundle_id iocs = to_stix_bundle W (codes "Threat Intel Platform") bundle_id iocs

unfoldable pub to_misp : Writers → Text → Text → List IocRow → Json
unfolding to_misp_event
to_misp W info day iocs = to_misp_event W info day (codes "0") iocs

abbrev capitalized : Text → Text
capitalized [] = []
capitalized (c ∷ s) = upper_char c ∷ s

abbrev level_line : Text → Option ℕ → List Text
level_line level none = []
level_line level (some n) = (codes "- " ++ capitalized level ++ codes ": " ++ decimal n) ∷ []

abbrev reported_levels : List String
reported_levels = "critical" ∷ "high" ∷ "medium" ∷ "low" ∷ "clean" ∷ []

-- `total` and `by_level` are the entries of `stats`.
unfoldable pub executive_summary : ℕ → Dict String ℕ → Text
unfolding decimal lookup
executive_summary total by_level = lines (
    codes "# Executive Threat Summary"
    ∷ []
    ∷ (codes "- Total indicators tracked: **" ++ decimal total ++ codes "**")
    ∷ concat_map (λ level. level_line (codes level) (lookup level by_level)) reported_levels)
