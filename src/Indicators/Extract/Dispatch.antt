-- ===== src/Indicators/Extract/Dispatch.antt =====
-- `extract_indicators` of app/ioc/extract.py.
use cyber_threat_intelligenc.Prelude.{
  ℕ, ◌&&◌, String, string_eq, List, [], ◌∷◌, length, ltb, if◌then◌else◌, ◌==◌, nat_eq, ◌*◌,
}
use cyber_threat_intelligenc.Prelude.Text.{
  Text, text_eq, codes, strip, strip_left, starts_with, occurs, split,
}
use cyber_threat_intelligenc.Errors.{Attempt, thrown, app_error, validation_error}
use cyber_threat_intelligenc.Indicators.Classify.{Parsers}
use cyber_threat_intelligenc.Indicators.Extract.{Readers, extract_from_text, extract_from_csv}
use cyber_threat_intelligenc.Indicators.Extract.Stix.{JsonLibrary, extract_from_stix}

abbrev pub max_content_chars : ℕ
max_content_chars = 128 * 1024

-- `content.split("\n", 1)[0]`
abbrev first_line : List Text → Text
first_line [] = []
first_line (line ∷ lines) = line

-- What `auto` takes the document for.
unfoldable pub sniffed : Text → String
unfolding strip_left starts_with occurs strip split
sniffed content =
    if starts_with (strip_left content) (codes "{") && occurs (codes "\"objects\"") content
    then "stix"
    else if occurs (codes ",") (first_line (split 10 content))
        && occurs (codes "\n") (strip content)
    then "csv"
    else "text"

unfoldable pub extract_as :
    Parsers → Readers → JsonLibrary → ℕ → String → Text → Attempt (List Text)
unfolding extract_from_stix extract_from_csv extract_from_text
extract_as P R J limit fmt content =
    if fmt == "stix"
    then extract_from_stix J P limit content
    else if fmt == "csv"
    then extract_from_csv P R limit content
    else if fmt == "text"
    then extract_from_text P R limit content
    else thrown (app_error (validation_error "Unsupported import format"))

unfoldable pub extract_indicators :
    Parsers → Readers → JsonLibrary → ℕ → String → Text → Attempt (List Text)
unfolding extract_as sniffed
extract_indicators P R J limit fmt content =
    if ltb max_content_chars (length content)
    then thrown (app_error (validation_error "Document is too large to scan"))
    else extract_as P R J limit (if fmt == "auto" then sniffed content else fmt) content
