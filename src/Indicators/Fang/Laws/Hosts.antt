-- ===== src/Indicators/Fang/Laws/Hosts.antt =====
-- A host or an address with its dots and at signs bracketed.
use cyber_threat_intelligenc.Prelude.{
  ℕ, ◌≡◌, refl, ap, inl, inr, Bool, true, false, not, ◌&&◌, ◌||◌, [], ◌∷◌, ◌++◌, map, all, contains,
  concat_map, if◌then◌else◌, ◌==◌, nat_eq, arith, Bool-cases,
}
use native.Mathlib.Decide.{ℕ_discrete}
use cyber_threat_intelligenc.Prelude.Text.{
  Text, text_eq, codes, lower_char, starts_with, occurs, replace_from, replace,
}
use cyber_threat_intelligenc.Indicators.Fang.{is_letter}
use cyber_threat_intelligenc.Indicators.Fang.Laws.{is_dark}

-- What a host, a mail address or a path element is made of: no white space, bracket, colon or
-- backslash.
abbrev pub is_host_text : ℕ → Bool
is_host_text c = is_dark c && not (contains (91 ∷ 40 ∷ 123 ∷ 92 ∷ 58 ∷ []) c)

-- What is written for one character while dots and at signs are bracketed, dots only, and at signs
-- only.
abbrev pub dots : ℕ → Text
dots c = if c == 46 then codes "[.]" else c ∷ []

abbrev pub ats : ℕ → Text
ats c = if c == 64 then codes "[at]" else c ∷ []

abbrev pub both : ℕ → Text
both c = if c == 46 then codes "[.]" else ats c

pub bracket-dots : (s : Text) → replace (codes ".") (codes "[.]") s ≡ concat_map dots s
unfolding replace replace_from starts_with
bracket-dots [] = refl
bracket-dots (c ∷ s) = elim (Bool-cases (c == 46)) [
  | inl dot ↦ rw dot (ap (λ t. 91 ∷ 46 ∷ 93 ∷ t) (bracket-dots s))
  | inr other ↦ rw other (ap (c ∷◌) (bracket-dots s))
]

-- The two cases of `ats`, behind the case of `dots`.
pub bracket-ats :
    (s : Text) → replace (codes "@") (codes "[at]") (concat_map dots s) ≡ concat_map both s
unfolding replace replace_from starts_with ℕ_discrete
bracket-ats [] = refl
bracket-ats (c ∷ s) = elim (Bool-cases (c == 46)) [
  | inl dot ↦ rw dot (ap (λ t. 91 ∷ 46 ∷ 93 ∷ t) (bracket-ats s))
  | inr other ↦ elim (Bool-cases (c == 64)) [
    | inl at ↦ rw (other, at) (ap (λ t. 91 ∷ 97 ∷ 116 ∷ 93 ∷ t) (bracket-ats s))
    | inr plain ↦ rw (other, plain) (ap (c ∷◌) (bracket-ats s))
  ]
]

pub unbracket-dots :
    (s : Text)
    → all is_host_text s ≡ true
    → replace (codes "[.]") (codes ".") (concat_map both s) ≡ concat_map ats s
unfolding replace replace_from starts_with ℕ_discrete
unbracket-dots [] host = refl
unbracket-dots (c ∷ s) host =
    let rest : all is_host_text s ≡ true = ground arith in
    let again = unbracket-dots s rest in
    elim (Bool-cases (c == 46)) [
      | inl dot ↦ let is : c ≡ 46 = ground arith in rw is (ap (46 ∷◌) again)
      | inr other ↦ elim (Bool-cases (c == 64)) [
        | inl at ↦ let is : c ≡ 64 = ground arith in rw is (ap (λ t. 91 ∷ 97 ∷ 116 ∷ 93 ∷ t) again)
        | inr plain ↦
            let shut : (c == 91) ≡ false = ground arith in rw (other, plain, shut) (ap (c ∷◌) again)
      ]
    ]

pub unbracket-ats :
    (s : Text)
    → all is_host_text s ≡ true
    → replace (codes "[at]") (codes "@") (concat_map ats s) ≡ s
unfolding replace replace_from starts_with ℕ_discrete
unbracket-ats [] host = refl
unbracket-ats (c ∷ s) host =
    let rest : all is_host_text s ≡ true = ground arith in
    let again = unbracket-ats s rest in
    elim (Bool-cases (c == 64)) [
      | inl at ↦ let is : c ≡ 64 = ground arith in rw is (ap (64 ∷◌) again)
      | inr plain ↦
          let shut : (c == 91) ≡ false = ground arith in rw (plain, shut) (ap (c ∷◌) again)
    ]

pub keep-dot_words :
    (s : Text)
    → all is_host_text s ≡ true
    → replace (codes "[dot]") (codes ".") (concat_map ats s) ≡ concat_map ats s
unfolding replace replace_from starts_with ℕ_discrete
keep-dot_words [] host = refl
keep-dot_words (c ∷ s) host =
    let rest : all is_host_text s ≡ true = ground arith in
    let again = keep-dot_words s rest in
    elim (Bool-cases (c == 64)) [
      | inl at ↦ let is : c ≡ 64 = ground arith in rw is (ap (λ t. 91 ∷ 97 ∷ 116 ∷ 93 ∷ t) again)
      | inr plain ↦
          let shut : (c == 91) ≡ false = ground arith in rw (plain, shut) (ap (c ∷◌) again)
    ]

-- Characters that the brackets do not bring in.
contains-append : (s t : Text) (d : ℕ) → contains (s ++ t) d ≡ (contains s d || contains t d)
contains-append [] t d = refl
contains-append (c ∷ s) t d = ground (arith, contains-append s t d)

pub lacks-concat_map :
    (f : ℕ → Text) (d : ℕ) (s : Text)
    → ((c : ℕ) → is_host_text c ≡ true → contains (f c) d ≡ false)
    → all is_host_text s ≡ true
    → contains (concat_map f s) d ≡ false
lacks-concat_map f d [] excludes host = refl
lacks-concat_map f d (c ∷ s) excludes host =
    ground
      (arith, excludes c, lacks-concat_map f d s excludes, contains-append (f c) (concat_map f s) d)

-- Brackets make no scheme token: `t` is made of letters and does not start like "at" or "t".
starts-both :
    (s t : Text)
    → all is_letter t ≡ true
    → starts_with (map lower_char (concat_map both s)) t ≡ starts_with (map lower_char s) t
unfolding starts_with ℕ_discrete
starts-both s [] letters = refl
starts-both [] (d ∷ t) letters = refl
starts-both (c ∷ s) (d ∷ t) letters =
    let again = starts-both s t in
    elim (Bool-cases (c == 46)) [
      | inl dot ↦
          let is : c ≡ 46 = ground arith in
          let no1 : (91 == d) ≡ false = ground arith in
          let no2 : (46 == d) ≡ false = ground arith in rw (is, no1, no2) refl
      | inr other ↦ elim (Bool-cases (c == 64)) [
        | inl at ↦
            let is : c ≡ 64 = ground arith in
            let no1 : (91 == d) ≡ false = ground arith in
            let no2 : (64 == d) ≡ false = ground arith in rw (is, no1, no2) refl
        | inr plain ↦
            let l : all is_letter t ≡ true = ground arith in rw (other, plain, again l) refl
      ]
    ]

pub occurs-both :
    (s : Text) (d : ℕ) (t : Text)
    → all is_letter (d ∷ t) ≡ true
    → (97 == d) ≡ false
    → (116 == d) ≡ false
    → occurs (d ∷ t) (map lower_char (concat_map both s)) ≡ occurs (d ∷ t) (map lower_char s)
unfolding occurs starts_with ℕ_discrete
occurs-both [] d t letters a_differs t_differs = refl
occurs-both (c ∷ s) d t letters a_differs t_differs =
    let again = occurs-both s d t letters a_differs t_differs in
    let dot : (46 == d) ≡ false = ground arith in
    let opening : (91 == d) ≡ false = ground arith in
    let closing : (93 == d) ≡ false = ground arith in
    let at : (64 == d) ≡ false = ground arith in
    elim (Bool-cases (c == 46)) [
      | inl is_dot ↦ let is : c ≡ 46 = ground arith in rw (is, dot, opening, closing) again
      | inr other ↦ elim (Bool-cases (c == 64)) [
        | inl is_at ↦
            let is : c ≡ 64 = ground arith in
            rw (is, at, opening, closing, a_differs, t_differs) again
        | inr plain ↦
            let tail : all is_letter t ≡ true = ground arith in
            rw (other, plain, again, starts-both s t tail) refl
      ]
    ]

-- A longer token occurs no more often.
starts-longer : (s p q : Text) → starts_with s p ≡ false → starts_with s (p ++ q) ≡ false
unfolding starts_with
starts-longer s [] q h = absurd (cc h)
starts-longer [] (d ∷ p) q h = refl
starts-longer (c ∷ s) (d ∷ p) q h = ground (arith, starts-longer s p q)

pub occurs-longer :
    (s : Text) (d : ℕ) (p q : Text) → occurs (d ∷ p) s ≡ false → occurs ((d ∷ p) ++ q) s ≡ false
unfolding occurs text_eq
occurs-longer [] d p q h = refl
occurs-longer (c ∷ s) d p q h =
    ground (arith, starts-longer (c ∷ s) (d ∷ p) q, occurs-longer s d p q)
