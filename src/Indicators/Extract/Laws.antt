-- ===== src/Indicators/Extract/Laws.antt =====
-- What the loop that collects indicators returns, and when it fails.
use mathlib.Core.List.{append_assoc, append-nil}
use cyber_threat_intelligenc.Prelude.{
  ℕ, suc, ◌+◌, ◌-◌, ◌<◌, ◌≤◌, ◌≡◌, refl, sym, ap, ◌∙◌, ◌⊎◌, inl, inr, true, false, List, [], ◌∷◌,
  ◌++◌, All, map, take, length, length-append, leb, arith, Bool-cases,
}
use cyber_threat_intelligenc.Prelude.Text.{Text}
use cyber_threat_intelligenc.Errors.{
  Attempt, returned, thrown, app_error, value_error, unknown_indicator,
}
use cyber_threat_intelligenc.Indicators.Classify.{Parsers, ParsedIndicator, classify_indicator}
use cyber_threat_intelligenc.Indicators.Fang.{refang}
use cyber_threat_intelligenc.Indicators.Extract.{
  Readers, candidates, extract_from_text, values, is_seen, harvest, turn,
}
use mathlib.Core.Path.{subst}

module _ (P : Parsers) where
  -- The candidate is an indicator or raises the one error that the loop catches.
  abbrev pub IsReadable : Text → Type 0
  IsReadable c =
      ((p : ParsedIndicator) × (classify_indicator P c ≡ returned p))
      ⊎ (classify_indicator P c ≡ thrown (app_error unknown_indicator))

  indicators_in : Attempt ParsedIndicator → List ParsedIndicator → List ParsedIndicator
  indicators_in (returned p) ps = p ∷ ps
  indicators_in (thrown e) ps = ps

  -- The candidates that are indicators.
  unfoldable pub parsed : List Text → List ParsedIndicator
  unfolding indicators_in
  parsed [] = []
  parsed (c ∷ cs) = indicators_in (classify_indicator P c) (parsed cs)

  -- The first of each key, without the keys of `found`.
  unfoldable pub distinct : List ParsedIndicator → List ParsedIndicator → List ParsedIndicator
  distinct found [] = []
  distinct found (p ∷ ps) = elim (is_seen p found) [
    | true ↦ distinct found ps
    | false ↦ p ∷ distinct (found ++ p ∷ []) ps
  ]

  grows :
      (found : List ParsedIndicator) (p : ParsedIndicator)
      → length (found ++ p ∷ []) ≡ suc (length found)
  grows found p = omega (arith, length-append found (p ∷ []))

  take-length :
      (n m : ℕ) (p : ParsedIndicator) (ps : List ParsedIndicator)
      → m < n
      → take (n - m) (p ∷ ps) ≡ p ∷ take (n - suc m) ps
  take-length n m p ps h = let e : n - m ≡ suc (n - suc m) = omega arith in rw e refl

  -- What is left of the limit, after `found`.
  abbrev room : ℕ → List ParsedIndicator → ℕ
  room limit found = limit - length found

  harvest-take :
      (limit : ℕ) (cs : List Text) (found : List ParsedIndicator)
      → length found < limit
      → All IsReadable cs
      → harvest P limit cs found
        ≡ returned (found ++ take (room limit found) (distinct found (parsed cs)))
  unfolding harvest turn parsed indicators_in distinct
  harvest-take limit [] found less _ =
      let e : room limit found ≡ suc (room limit found - 1) = omega arith in
      rw (e, append-nil found) refl
  harvest-take limit (c ∷ cs) found less (inr unknown, readable) =
      rw (unknown, harvest, turn) (harvest-take limit cs found less readable)
  harvest-take limit (c ∷ cs) found less (inl (p, known), readable) =
      elim (Bool-cases (is_seen p found)) [
        | inl seen ↦
            rw (known, seen, harvest, turn, distinct) (harvest-take limit cs found less readable)
        | inr new ↦
            let more : length (found ++ p ∷ []) ≡ suc (length found) = grows found p in
            let rest = distinct (found ++ p ∷ []) (parsed cs) in
            let here = take-length limit (length found) p rest less in
            elim (Bool-cases (leb limit (length (found ++ p ∷ [])))) [
              | inl full ↦
                  let none_left : limit - suc (length found) ≡ 0 = ground arith in
                  rw (known, new, harvest, turn, distinct, full, here, none_left) refl
              | inr left ↦
                  let below : length (found ++ p ∷ []) < limit = ground arith in
                  rw (known, new, harvest, turn, distinct, left, here, sym more)
                    (harvest-take limit cs (found ++ p ∷ []) below readable
                      ∙ ap returned
                          (append_assoc found (p ∷ []) (take (room limit (found ++ p ∷ [])) rest)))
            ]
      ]

  harvest-reach :
      (limit : ℕ) (pre rest : List Text) (found : List ParsedIndicator)
      → length found + length (distinct found (parsed pre)) < limit
      → All IsReadable pre
      → harvest P limit (pre ++ rest) found
        ≡ harvest P limit rest (found ++ distinct found (parsed pre))
  unfolding harvest turn parsed indicators_in distinct
  harvest-reach limit [] rest found less _ = rw (append-nil found) refl
  harvest-reach limit (c ∷ cs) rest found less (inr unknown, readable) =
      rw (unknown, harvest, turn)
        (harvest-reach limit cs rest found
          (subst (λ a. length found + length (distinct found (indicators_in a (parsed cs))) < limit)
            unknown less)
          readable)
  harvest-reach limit (c ∷ cs) rest found less (inl (p, known), readable) =
      let less' : length found + length (distinct found (p ∷ parsed cs)) < limit =
        subst (λ a. length found + length (distinct found (indicators_in a (parsed cs))) < limit)
          known less in
      elim (Bool-cases (is_seen p found)) [
        | inl seen ↦
            let less'' : length found + length (distinct found (parsed cs)) < limit =
              rw (seen, distinct) at less' in
            rw (known, seen, harvest, turn, distinct)
              (harvest-reach limit cs rest found less'' readable)
        | inr new ↦
            let tail = distinct (found ++ p ∷ []) (parsed cs) in
            let more : length (found ++ p ∷ []) ≡ suc (length found) = grows found p in
            let less'' : length found + suc (length tail) < limit = rw (new, distinct) at less' in
            let left : leb limit (length (found ++ p ∷ [])) ≡ false = ground arith in
            let below : length (found ++ p ∷ []) + length tail < limit = omega arith in
            rw (known, new, harvest, turn, distinct, left)
              (harvest-reach limit cs rest (found ++ p ∷ []) below readable
                ∙ ap (harvest P limit rest) (append_assoc found (p ∷ []) tail))
      ]

  -- When the limit is positive and no candidate raises another error, a text yields the first
  -- `limit` distinct indicators among its candidates, in the order of the candidates. That is pattern
  -- by pattern, and the order of the text only among the matches of one pattern.
  pub extract_from_text-eq-first_distinct :
      (R : Readers) (limit : ℕ) (text : Text)
      → 1 ≤ limit
      → All IsReadable (candidates R (refang text))
      → extract_from_text P R limit text
        ≡ returned (
            map
              (λ (p : ParsedIndicator). p.value)
              (take limit (distinct [] (parsed (candidates R (refang text))))))
  unfolding extract_from_text
  extract_from_text-eq-first_distinct R limit text positive readable =
      let whole : limit - 0 ≡ limit = omega arith in
      let cs = candidates R (refang text) in
      ap (values P) (
        harvest-take limit cs [] (omega arith) readable
        ∙ ap (λ n. returned (take n (distinct [] (parsed cs)))) whole)

  -- A text whose candidates are first fewer than `limit` distinct indicators and then one that
  -- `urlsplit` rejects yields no indicator at all: the `ValueError` ends the extraction.
  pub malformed_url_aborts :
      (R : Readers) (limit : ℕ) (text bad : Text) (pre post : List Text)
      → candidates R (refang text) ≡ pre ++ bad ∷ post
      → All IsReadable pre
      → length (distinct [] (parsed pre)) < limit
      → classify_indicator P bad ≡ thrown value_error
      → extract_from_text P R limit text ≡ thrown value_error
  unfolding extract_from_text
  malformed_url_aborts R limit text bad pre post split readable less malformed =
      let below : 0 + length (distinct [] (parsed pre)) < limit = omega arith in
      rw (split, harvest-reach limit pre (bad ∷ post) [] below readable)
        (rw (malformed, harvest, turn) refl)
