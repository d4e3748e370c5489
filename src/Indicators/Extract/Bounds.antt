-- ===== src/Indicators/Extract/Bounds.antt =====
-- How much one document may yield.
use cyber_threat_intelligenc.Prelude.{
  ℕ, suc, Option, none, some, take, ◌<◌, ◌≤◌, ◌≡◌, refl, ap, Bool, true, false, String, List, [],
  ◌∷◌, map, length, length-append, ltb, if◌then◌else◌, ◌==◌, string_eq, lt→ltb, arith,
}
use cyber_threat_intelligenc.Prelude.Text.{Text}
use cyber_threat_intelligenc.Errors.{Attempt, returned, thrown, app_error, validation_error}
use cyber_threat_intelligenc.Indicators.Classify.{Parsers, ParsedIndicator, classify_indicator}
use cyber_threat_intelligenc.Indicators.Extract.{
  Readers, Turn, go, halt, turn, harvest, values, from_rows, extract_from_text, extract_from_csv,
  candidates, cells, join_lines, dialect_or_excel,
}
use cyber_threat_intelligenc.Indicators.Fang.{refang}
use cyber_threat_intelligenc.Indicators.Extract.Stix.{
  JsonLibrary, bundle_values, harvest_of, extract_from_stix,
}
use cyber_threat_intelligenc.Indicators.Extract.Dispatch.{
  extract_as, extract_indicators, sniffed, max_content_chars,
}

-- What comes back is within the limit.
abbrev pub IsWithin {ℓ} : {A : Type ℓ} → ℕ → Attempt (List A) → Type 0
IsWithin limit (returned xs) = length xs ≤ limit
IsWithin limit (thrown e) = Unit

-- What a turn leaves is below the limit, or the end.
abbrev IsBounded : ℕ → Turn → Type 0
IsBounded limit (go found) = length found < limit
IsBounded limit (halt result) = IsWithin limit result

module _ (P : Parsers) where
  turn-IsBounded :
      (limit : ℕ) (found : List ParsedIndicator) (a : Attempt ParsedIndicator)
      → length found < limit
      → IsBounded limit (turn limit found a)
  unfolding turn
  turn-IsBounded limit found (returned p) less =
      let more = length-append found (p ∷ []) in ground (arith, more)
  turn-IsBounded limit found (thrown e) less = ground arith

  harvest-IsWithin :
      (limit : ℕ) (cs : List Text) (found : List ParsedIndicator)
      → length found < limit
      → IsWithin limit (harvest P limit cs found)
  unfolding harvest
  harvest-IsWithin limit [] found less = omega arith
  harvest-IsWithin limit (c ∷ cs) found less =
      after (λ found' below. harvest-IsWithin limit cs found' below)
        (turn limit found (classify_indicator P c))
        (turn-IsBounded limit found (classify_indicator P c) less)
    where
      after :
          ((found' : List ParsedIndicator)
            → length found' < limit
            → IsWithin limit (harvest P limit cs found'))
          → (t : Turn) → IsBounded limit t
          → IsWithin limit (elim t [ go found' ↦ harvest P limit cs found' | halt result ↦ result ])
      after later (go found') bounded = later found' bounded
      after later (halt result) bounded = bounded

  length-map :
      (ps : List ParsedIndicator) → length (map (λ (p : ParsedIndicator). p.value) ps) ≡ length ps
  length-map [] = refl
  length-map (p ∷ ps) = ap suc (length-map ps)

  values-IsWithin :
      (limit : ℕ) (r : Attempt (List ParsedIndicator))
      → IsWithin limit r
      → IsWithin limit (values P r)
  values-IsWithin limit (returned ps) within = omega (arith, length-map ps)
  values-IsWithin limit (thrown e) within = tt

  pub harvested-IsWithin :
      (limit : ℕ) (cs : List Text) → 1 ≤ limit → IsWithin limit (values P (harvest P limit cs []))
  harvested-IsWithin limit cs positive =
      let below : length {A = ParsedIndicator} [] < limit = omega arith in
      values-IsWithin limit (harvest P limit cs []) (harvest-IsWithin limit cs [] below)

  text-IsWithin :
      (R : Readers) (limit : ℕ) (text : Text)
      → 1 ≤ limit
      → IsWithin limit (extract_from_text P R limit text)
  unfolding extract_from_text
  text-IsWithin R limit text positive =
      harvested-IsWithin limit (candidates R (refang text)) positive

  rows-IsWithin :
      (R : Readers) (limit : ℕ) (rows : Option (List (List Text)))
      → 1 ≤ limit
      → IsWithin limit (from_rows P R limit rows)
  unfolding from_rows
  rows-IsWithin R limit none positive = tt
  rows-IsWithin R limit (some []) positive = omega arith
  rows-IsWithin R limit (some (row ∷ rows)) positive =
      text-IsWithin R limit (join_lines (cells (row ∷ rows))) positive

  csv-IsWithin :
      (R : Readers) (limit : ℕ) (text : Text)
      → 1 ≤ limit
      → IsWithin limit (extract_from_csv P R limit text)
  unfolding extract_from_csv
  csv-IsWithin R limit text positive =
      rows-IsWithin R limit (R.reader text (dialect_or_excel R (R.sniff (take 4096 text)))) positive

  stix-IsWithin :
      (J : JsonLibrary) (limit : ℕ) (text : Text)
      → 1 ≤ limit
      → IsWithin limit (extract_from_stix J P limit text)
  unfolding extract_from_stix
  stix-IsWithin J limit text positive = offered (bundle_values J (J.loads text))
    where
      offered : (vs : Attempt (List Text)) → IsWithin limit (harvest_of J P limit vs)
      offered (returned vs) = harvested-IsWithin limit vs positive
      offered (thrown e) = tt

  extract_as-IsWithin :
      (R : Readers) (J : JsonLibrary) (limit : ℕ) (fmt : String) (content : Text)
      → 1 ≤ limit
      → IsWithin limit (extract_as P R J limit fmt content)
  unfolding extract_as
  extract_as-IsWithin R J limit fmt content positive = ground (
    arith,
    stix-IsWithin J limit content positive,
    csv-IsWithin R limit content positive,
    text-IsWithin R limit content positive,
  )

  refused-IsWithin :
      (limit : ℕ) (large : Bool) (r : Attempt (List Text))
      → IsWithin limit r
      → IsWithin limit (
          if large
          then thrown (app_error (validation_error "Document is too large to scan"))
          else r)
  refused-IsWithin limit true r within = tt
  refused-IsWithin limit false r within = within

  -- When the limit is positive, a document yields no more indicators than the limit, whatever the
  -- format, and one of more than 131072 characters ends in the `ValidationError` of `extract_indicators`.
  pub extract_indicators_bounds :
      (R : Readers) (J : JsonLibrary) (limit : ℕ) (fmt : String) (content : Text)
      → 1 ≤ limit
      → IsWithin limit (extract_indicators P R J limit fmt content)
        × (131072 < length content
            → extract_indicators P R J limit fmt content
              ≡ thrown (app_error (validation_error "Document is too large to scan")))
  unfolding extract_indicators
  extract_indicators_bounds R J limit fmt content positive = (
    refused-IsWithin limit (ltb max_content_chars (length content))
        (extract_as P R J limit kind content) (extract_as-IsWithin R J limit kind content positive),
    λ large. rw (lt→ltb max_content_chars (length content) large) refl,
  )
    where
      kind : String
      kind = if fmt == "auto" then sniffed content else fmt
