-- ===== src/Sharing/Stix/Laws/Escape.antt =====
-- A value in a pattern: how it is escaped, and what the importer reads of the pattern.
use cyber_threat_intelligenc.Prelude.{
  ℕ, zero, suc, ◌≡◌, refl, sym, ap, ◌∙◌, inl, inr, false, some, [], ◌∷◌, ◌++◌, map, length,
  contains, concat_map, if◌then◌else◌, ◌==◌, nat_eq, arith, Bool-cases,
}
use native.Mathlib.Decide.{ℕ_discrete}
use cyber_threat_intelligenc.Prelude.Text.{
  Text, text_eq, codes, strip_left, starts_with, replace_from, replace, same,
}
use cyber_threat_intelligenc.Indicators.Extract.Stix.{quoted, match_quoted, scan, pattern_values}
use cyber_threat_intelligenc.Sharing.Stix.{escape, comparison}

-- What is written for one character while backslashes are doubled, and when quotes are escaped too.
abbrev doubled_char : ℕ → Text
doubled_char c = if c == 92 then 92 ∷ 92 ∷ [] else c ∷ []

abbrev escaped_char : ℕ → Text
escaped_char c = if c == 39 then 92 ∷ 39 ∷ [] else doubled_char c

-- `value.replace("\\", "\\\\")`
abbrev pub doubled : Text → Text
doubled value = replace (codes "\\") (codes "\\\\") value

doubled-eq-map : (s : Text) → doubled s ≡ concat_map doubled_char s
unfolding replace replace_from starts_with
doubled-eq-map [] = refl
doubled-eq-map (c ∷ s) = elim (Bool-cases (c == 92)) [
  | inl back ↦ rw back (ap (λ t. 92 ∷ 92 ∷ t) (doubled-eq-map s))
  | inr other ↦ rw other (ap (c ∷◌) (doubled-eq-map s))
]

quotes :
    (s : Text)
    → replace (codes "'") (codes "\\'") (concat_map doubled_char s) ≡ concat_map escaped_char s
unfolding replace replace_from starts_with ℕ_discrete
quotes [] = refl
quotes (c ∷ s) = elim (Bool-cases (c == 39)) [
  | inl quote ↦ let is : c ≡ 39 = ground arith in rw is (ap (λ t. 92 ∷ 39 ∷ t) (quotes s))
  | inr other ↦ elim (Bool-cases (c == 92)) [
    | inl back ↦ let is : c ≡ 92 = ground arith in rw is (ap (λ t. 92 ∷ 92 ∷ t) (quotes s))
    | inr plain ↦ rw (other, plain) (rw other (ap (c ∷◌) (quotes s)))
  ]
]

escape-eq-map : (s : Text) → escape s ≡ concat_map escaped_char s
unfolding escape
escape-eq-map s = ap (replace (codes "'") (codes "\\'")) (doubled-eq-map s) ∙ quotes s

no_quote : (s : Text) → starts_with (map same (concat_map escaped_char s)) (codes "'") ≡ false
unfolding starts_with ℕ_discrete
no_quote [] = refl
no_quote (c ∷ s) = elim (Bool-cases (c == 39)) [
  | inl quote ↦ rw quote refl
  | inr other ↦ elim (Bool-cases (c == 92)) [
    | inl back ↦ rw (other, back) refl
    | inr plain ↦ rw (other, plain) (rw other refl)
  ]
]

unescape :
    (s : Text)
    → replace (codes "\\'") (codes "'") (concat_map escaped_char s) ≡ concat_map doubled_char s
unfolding replace replace_from starts_with ℕ_discrete
unescape [] = refl
unescape (c ∷ s) = elim (Bool-cases (c == 39)) [
  | inl quote ↦ let is : c ≡ 39 = ground arith in rw is (ap (39 ∷◌) (unescape s))
  | inr other ↦ elim (Bool-cases (c == 92)) [
    | inl back ↦
        let is : c ≡ 92 = ground arith in rw (is, no_quote s) (ap (λ t. 92 ∷ 92 ∷ t) (unescape s))
    | inr plain ↦ rw (other, plain) (rw plain (ap (c ∷◌) (unescape s)))
  ]
]

quoted-escape :
    (s rest : Text)
    → quoted false (concat_map escaped_char s ++ 39 ∷ rest) ≡ some (concat_map escaped_char s, rest)
unfolding quoted ℕ_discrete
quoted-escape [] rest = refl
quoted-escape (c ∷ s) rest = elim (Bool-cases (c == 39)) [
  | inl quote ↦ let is : c ≡ 39 = ground arith in rw (is, quoted-escape s rest) refl
  | inr other ↦ elim (Bool-cases (c == 92)) [
    | inl back ↦ let is : c ≡ 92 = ground arith in rw (is, quoted-escape s rest) refl
    | inr plain ↦ rw (other, plain) (rw (other, plain, quoted-escape s rest) refl)
  ]
]

-- An equals sign starts a match, so nothing is found before the first.
scan-skip :
    (path rest : Text)
    → contains path 61 ≡ false
    → scan (length (path ++ rest)) (path ++ rest) ≡ scan (length rest) rest
unfolding scan
scan-skip [] rest lacks = refl
scan-skip (c ∷ path) rest lacks =
    let differs : (c == 61) ≡ false = ground arith in
    let later : contains path 61 ≡ false = ground arith in
    rw (differs, scan) (scan-skip path rest later)

scan-end : (fuel : ℕ) → scan fuel (93 ∷ []) ≡ []
unfolding scan ℕ_discrete
scan-end zero = refl
scan-end (suc zero) = refl
scan-end (suc (suc fuel)) = refl

-- The text of a pattern from the blank before its equals sign on.
abbrev rest_of : Text → Text
rest_of value = codes " = '" ++ (concat_map escaped_char value ++ codes "']")

scan-rest :
    (value : Text)
    → scan (length (rest_of value)) (rest_of value) ≡ concat_map escaped_char value ∷ []
unfolding scan match_quoted strip_left ℕ_discrete
scan-rest value = rw (scan, quoted-escape value (93 ∷ [])) refl

-- The importer reads of a pattern the value with its backslashes doubled.
pub pattern_values-comparison :
    (path value : Text)
    → contains path 61 ≡ false
    → pattern_values (comparison path value) ≡ doubled value ∷ []
unfolding pattern_values comparison ℕ_discrete
pattern_values-comparison path value lacks =
    let start : contains (91 ∷ path) 61 ≡ false = lacks in
    let unescaped = replace (codes "\\'") (codes "'") in
    ap (λ e. pattern_values (91 ∷ path ++ (codes " = '" ++ (e ++ codes "']"))))
      (escape-eq-map value)
    ∙ ap (map unescaped) (scan-skip (91 ∷ path) (rest_of value) start ∙ scan-rest value)
    ∙ ap (λ v. v ∷ []) (unescape value ∙ sym (doubled-eq-map value))
