-- ===== src/Indicators/Extract.antt =====
-- The extractors for text and CSV of app/ioc/extract.py. The libraries `re` and `csv` are
-- parameters: of `re` what `finditer` finds of the eight patterns, of `csv` the dialects.
pub mod Stix
pub mod Dispatch
pub mod Laws
pub mod Bounds
use mathlib.Core.List.{reverse}
use cyber_threat_intelligenc.Prelude.{
  ℕ, zero, suc, ◌+◌, ◌-◌, Bool, true, false, not, ◌&&◌, String, string_eq, Option, none, some, List,
  [], ◌∷◌, ◌++◌, map, drop, take, length, leb, contains, concat_map, if◌then◌else◌, ◌==◌, nat_eq,
  ◌||◌,
}
use cyber_threat_intelligenc.Prelude.Text.{Text, text_eq, codes, lower, strip, strip_left, split}
use cyber_threat_intelligenc.Errors.{
  Attempt, returned, thrown, Exception, app_error, value_error, csv_error, AppError,
  unknown_indicator,
}
use cyber_threat_intelligenc.Indicators.{IocType, type_value}
use cyber_threat_intelligenc.Indicators.Fang.{refang}
use cyber_threat_intelligenc.Indicators.Classify.{Parsers, ParsedIndicator, classify_indicator}

abbrev pub max_indicators : ℕ
max_indicators = 1000

-- The patterns, in the order of `_PATTERNS`.
pub data Pattern : Type 0 where
  url_re email_re hash_re cve_re technique_re ipv6_re ipv4_re domain_re : Pattern

abbrev pub patterns : List Pattern
patterns = url_re ∷ email_re ∷ hash_re ∷ cve_re ∷ technique_re ∷ ipv6_re ∷ ipv4_re ∷ domain_re ∷ []

abbrev is_domain_re : Pattern → Bool
is_domain_re domain_re = true
is_domain_re _ = false

-- The start and the end of a match.
abbrev pub Span : Type 0
Span = ℕ × ℕ

pub record Readers : Type 1 where
  pub finditer : Pattern → Text → List Span
  pub Dialect : Type 0
  -- `csv.Sniffer().sniff` and `csv.reader`; `none` is a `csv.Error`.
  pub sniff : Text → Option Dialect
  pub excel : Dialect
  pub reader : Text → Dialect → Option (List (List Text))

abbrev pub file_suffixes : List String
file_suffixes =
    "exe" ∷ "dll" ∷ "sys" ∷ "so" ∷ "dylib" ∷ "bin" ∷ "msi" ∷ "jar" ∷ "class" ∷ "scr" ∷ "lnk" ∷ "js"
    ∷ "ts" ∷ "py" ∷ "rb" ∷ "pl" ∷ "ps1" ∷ "sh" ∷ "bat" ∷ "cmd" ∷ "vbs" ∷ "php" ∷ "asp" ∷ "aspx"
    ∷ "jsp" ∷ "doc" ∷ "docx" ∷ "xls" ∷ "xlsx" ∷ "ppt" ∷ "pptx" ∷ "pdf" ∷ "rtf" ∷ "txt" ∷ "md"
    ∷ "csv" ∷ "json" ∷ "xml" ∷ "yaml" ∷ "yml" ∷ "html" ∷ "htm" ∷ "log" ∷ "dat" ∷ "ini" ∷ "cfg"
    ∷ "conf" ∷ "tmp" ∷ "zip" ∷ "rar" ∷ "gz" ∷ "tar" ∷ "7z" ∷ "iso" ∷ "cab" ∷ "png" ∷ "jpg" ∷ "jpeg"
    ∷ "gif" ∷ "svg" ∷ "ico" ∷ "mp4" ∷ "avi" ∷ []

-- `s.rsplit(sep, 1)[-1]`
abbrev last_part : List Text → Text
last_part [] = []
last_part (part ∷ parts) = part

unfoldable pub plausible_domain : Text → Bool
unfolding lower split
plausible_domain candidate =
    not (contains (map codes file_suffixes) (lower (last_part (reverse (split 46 candidate)))))

-- The loop over `matches` that builds `chunks`, at `cursor`.
unfoldable pub blank : Text → ℕ → List Span → Text
blank remaining cursor [] = drop cursor remaining
blank remaining cursor ((start, stop) ∷ matches) =
    take (start - cursor) (drop cursor remaining) ++ 32 ∷ blank remaining stop matches

-- The characters of `rstrip(".,;:)]}\"'")`.
unfoldable pub strip_trailing : Text → Text
strip_trailing [] = []
strip_trailing (c ∷ s) = if contains (codes ".,;:)]}\"'") c then strip_trailing s else c ∷ s

-- `match.group(0).rstrip(...)`
unfoldable pub match_value : Text → Span → Text
unfolding strip_trailing
match_value remaining (start, stop) =
    reverse (strip_trailing (reverse (take (stop - start) (drop start remaining))))

-- The loop over `matches` that yields.
unfoldable pub yielded : Pattern → Text → List Span → List Text
unfolding match_value plausible_domain
yielded pattern remaining [] = []
yielded pattern remaining (match ∷ matches) =
    let rest = yielded pattern remaining matches in
    if is_domain_re pattern && not (plausible_domain (match_value remaining match))
    then rest
    else match_value remaining match ∷ rest

-- The loop of `_candidates` over the patterns. With no match `remaining` stays as it is.
unfoldable pub candidates_from : Readers → List Pattern → Text → List Text
unfolding yielded blank
candidates_from R [] remaining = []
candidates_from R (p ∷ ps) remaining =
    yielded p remaining (R.finditer p remaining)
    ++ candidates_from R ps (blank remaining 0 (R.finditer p remaining))

unfoldable pub candidates : Readers → Text → List Text
unfolding candidates_from
candidates R text = candidates_from R patterns text

-- `key`
abbrev pub key : ParsedIndicator → String × Text
key p = (type_value p.type, p.value)

abbrev pub same_key : ParsedIndicator → ParsedIndicator → Bool
same_key p q = type_value p.type == type_value q.type && p.value == q.value

-- `key in seen`
abbrev pub is_seen : ParsedIndicator → List ParsedIndicator → Bool
is_seen p [] = false
is_seen p (q ∷ qs) = same_key p q || is_seen p qs

-- How a turn of the loop ends: with the next turn, or with the function.
pub data Turn : Type 0 where
  go : List ParsedIndicator → Turn
  halt : Attempt (List ParsedIndicator) → Turn

-- `except UnknownIndicatorError`
abbrev is_unknown : Exception → Bool
is_unknown (app_error unknown_indicator) = true
is_unknown _ = false

-- `seen` holds the keys of what is found.
unfoldable pub turn : ℕ → List ParsedIndicator → Attempt ParsedIndicator → Turn
turn limit found (thrown e) = if is_unknown e then go found else halt (thrown e)
turn limit found (returned p) =
    if is_seen p found
    then go found
    else if leb limit (length (found ++ p ∷ []))
    then halt (returned (found ++ p ∷ []))
    else go (found ++ p ∷ [])

-- The first column whose name, at index `i` of the header, is that of an indicator.
unfoldable pub indicator_column : List Text → ℕ → Option ℕ
unfolding lower strip
indicator_column [] i = none
indicator_column (name ∷ names) i =
    let rest = indicator_column names (suc i) in
    if contains (codes "value" ∷ codes "ioc" ∷ codes "indicator" ∷ codes "observable" ∷ [])
      (lower (strip name))
    then some i
    else rest

-- `[row[index]] if len(row) > index else []`
abbrev pub cell : ℕ → List Text → List Text
cell index row = take 1 (drop index row)

unfoldable pub cells : List (List Text) → List Text
unfolding indicator_column
cells [] = []
cells (header ∷ rows) = elim (indicator_column header 0) [
  | none ↦ concat_map (λ row. row) (header ∷ rows)
  | some index ↦ concat_map (cell index) rows
]

-- `"\n".join(cells)`
abbrev pub join_lines : List Text → Text
join_lines [] = []
join_lines (s ∷ []) = s
join_lines (s ∷ t ∷ ts) = s ++ 10 ∷ join_lines (t ∷ ts)

abbrev pub dialect_or_excel : (R : Readers) → Option R.Dialect → R.Dialect
dialect_or_excel R none = R.excel
dialect_or_excel R (some dialect) = dialect

module _ (P : Parsers) where
  unfoldable pub harvest : ℕ → List Text → List ParsedIndicator → Attempt (List ParsedIndicator)
  unfolding turn
  harvest limit [] found = returned found
  harvest limit (c ∷ cs) found = elim (turn limit found (classify_indicator P c)) [
    | go found' ↦ harvest limit cs found'
    | halt result ↦ result
  ]

  abbrev pub values : Attempt (List ParsedIndicator) → Attempt (List Text)
  values (returned found) = returned (map (λ (p : ParsedIndicator). p.value) found)
  values (thrown e) = thrown e

  unfoldable pub extract_from_text : Readers → ℕ → Text → Attempt (List Text)
  unfolding harvest
  extract_from_text R limit text = values (harvest limit (candidates R (refang text)) [])

  unfoldable pub from_rows : Readers → ℕ → Option (List (List Text)) → Attempt (List Text)
  unfolding cells extract_from_text
  from_rows R limit none = thrown csv_error
  from_rows R limit (some []) = returned []
  from_rows R limit (some (row ∷ rows)) =
      extract_from_text R limit (join_lines (cells (row ∷ rows)))

  unfoldable pub extract_from_csv : Readers → ℕ → Text → Attempt (List Text)
  unfolding from_rows
  extract_from_csv R limit text =
      from_rows R limit (R.reader text (dialect_or_excel R (R.sniff (take 4096 text))))
