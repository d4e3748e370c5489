-- ===== src/Tests/Indicators.antt =====
-- Indicators written, found and reported.
use cyber_threat_intelligenc.Prelude.{
  ◌≡◌, ◌<◌, refl, inl, none, some, [], ◌∷◌, map, take, length, contains, if◌then◌else◌, nat_eq,
  arith,
}
use native.Mathlib.Decide.{ℕ_discrete}
use cyber_threat_intelligenc.Prelude.Text.{
  text_eq, codes, lower, strip, strip_left, starts_with, occurs, replace_from, replace, split,
}
use cyber_threat_intelligenc.Errors.{returned, thrown, value_error, app_error, validation_error}
use cyber_threat_intelligenc.Indicators.{IocType, md5}
use cyber_threat_intelligenc.Indicators.Fang.{
  refang, refang_loop, refang_step, is_scheme_token, defang,
}
use cyber_threat_intelligenc.Indicators.Fang.Laws.RoundTrip.{refang-defang}
use cyber_threat_intelligenc.Indicators.Patterns.{is_hex_of, is_cve, is_technique}
use cyber_threat_intelligenc.Indicators.Classify.{
  Parsers, ParsedIndicator, hash_type, classify_indicator, classify_value, classify_url, parsed_as,
}
use cyber_threat_intelligenc.Indicators.Classify.Laws.{hex_digits, classify-hash_canonical}
use cyber_threat_intelligenc.Indicators.Extract.{
  Readers, url_re, candidates, candidates_from, yielded, blank, match_value, extract_from_text,
}
use cyber_threat_intelligenc.Indicators.Extract.Laws.{
  distinct, parsed, extract_from_text-eq-first_distinct, malformed_url_aborts,
}
use cyber_threat_intelligenc.Indicators.Extract.Stix.{JsonLibrary}
use cyber_threat_intelligenc.Indicators.Extract.Dispatch.{extract_indicators}
use cyber_threat_intelligenc.Indicators.Extract.Bounds.{IsWithin, extract_indicators_bounds}

-- No text is an address; a URL with an open bracket is rejected.
abbrev parsers : Parsers
parsers = record {
  ip_version = λ s. none;
  urlsplit = λ s.
      if contains s 91
      then none
      else some (record { scheme = codes "http"; netloc = codes "a"; hostname = some (codes "a") });
}

-- Each text is one URL.
abbrev readers : Readers
readers = record {
  finditer = λ p s. elim p [ url_re ↦ (0, length s) ∷ [] | _ ↦ [] ];
  Dialect = Unit;
  sniff = λ s. none;
  excel = tt;
  reader = λ s d. some ((s ∷ []) ∷ []);
}

abbrev json : JsonLibrary
json = record { loads = λ s. none; str = λ j. [] }

classify-hash_canonical_example :
    (classify_indicator parsers (codes " D41D8CD98F00B204E9800998ECF8427E")
      ≡ parsed_as md5 (lower (strip (refang (codes " D41D8CD98F00B204E9800998ECF8427E")))))
    × (classify_indicator parsers
          (lower (strip (refang (codes " D41D8CD98F00B204E9800998ECF8427E"))))
        ≡ classify_indicator parsers (codes " D41D8CD98F00B204E9800998ECF8427E"))
unfolding refang refang_loop refang_step is_scheme_token replace_from strip strip_left starts_with
    hash_type is_hex_of replace ℕ_discrete text_eq
classify-hash_canonical_example =
    classify-hash_canonical parsers (codes " D41D8CD98F00B204E9800998ECF8427E") md5
      (hex_digits (codes "D41D8CD98F00B204E9800998ECF8427E") refl) (inl (refl, refl))

refang-defang_example : refang (defang (codes "a.b@c.xp")) ≡ codes "a.b@c.xp"
unfolding starts_with occurs lower ℕ_discrete text_eq
refang-defang_example = refang-defang (codes "a.b@c.xp") refl refl refl refl

extract_from_text-eq-first_distinct_example :
    extract_from_text parsers readers 5 (codes "ftp://a")
    ≡ returned (
        map
          (λ (p : ParsedIndicator). p.value)
          (take 5
            (distinct parsers [] (parsed parsers (candidates readers (refang (codes "ftp://a")))))))
unfolding refang refang_loop refang_step is_scheme_token replace_from strip strip_left starts_with
    occurs lower split candidates candidates_from yielded blank match_value classify_indicator
    classify_value classify_url hash_type is_hex_of is_cve is_technique replace ℕ_discrete text_eq
extract_from_text-eq-first_distinct_example =
    extract_from_text-eq-first_distinct parsers readers 5 (codes "ftp://a") (omega arith)
      (inl (record { type = IocType.url; value = codes "ftp://a" }, refl), tt)

malformed_url_aborts_example :
    extract_from_text parsers readers 5 (codes "ftp://[a") ≡ thrown value_error
unfolding refang refang_loop refang_step is_scheme_token replace_from strip strip_left starts_with
    occurs lower split candidates candidates_from yielded blank match_value classify_indicator
    classify_value classify_url hash_type is_hex_of is_cve is_technique replace ℕ_discrete text_eq
    distinct parsed
malformed_url_aborts_example =
    malformed_url_aborts parsers readers 5 (codes "ftp://[a") (codes "ftp://[a") [] [] refl tt
      (omega arith) refl

extract_indicators_bounds_example :
    IsWithin 1 (extract_indicators parsers readers json 1 "text" (codes "ftp://a"))
    × (131072 < length (codes "ftp://a")
        → extract_indicators parsers readers json 1 "text" (codes "ftp://a")
          ≡ thrown (app_error (validation_error "Document is too large to scan")))
extract_indicators_bounds_example =
    extract_indicators_bounds parsers readers json 1 "text" (codes "ftp://a") (omega arith)
