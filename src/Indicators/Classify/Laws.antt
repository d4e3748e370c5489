-- ===== src/Indicators/Classify/Laws.antt =====
-- The normal form of what `classify_indicator` returns.
use mathlib.Core.Option.{none-ne-some}
use native.Mathlib.Decide.{ℕ_discrete}
use cyber_threat_intelligenc.Prelude.{
  ℕ, suc, ◌≤◌, ◌⊎◌, All, ◌≡◌, refl, sym, ap, ◌∙◌, true, false, some, [], ◌∷◌, all, length, ◌==◌,
  nat_eq, arith,
}
use cyber_threat_intelligenc.Prelude.Text.{Text, text_eq, lower_char, lower, strip}
use cyber_threat_intelligenc.Indicators.{IocType, md5, sha1, sha256}
use cyber_threat_intelligenc.Indicators.Fang.{refang}
use cyber_threat_intelligenc.Indicators.Fang.Laws.{
  is_dark, is_plain, strip-dark, refang-plain, all-weaken,
}
use cyber_threat_intelligenc.Indicators.Patterns.{is_hex, is_hex_of}
use cyber_threat_intelligenc.Indicators.Classify.{
  Parsers, hash_type, classify_indicator, classify_value, parsed_as,
}

length-lower : (s : Text) → length (lower s) ≡ length s
unfolding lower
length-lower [] = refl
length-lower (c ∷ s) = ap suc (length-lower s)

all_hex-lower : (s : Text) → all is_hex (lower s) ≡ all is_hex s
unfolding lower
all_hex-lower [] = refl
all_hex-lower (c ∷ s) =
    let same : is_hex (lower_char c) ≡ is_hex c = ground arith in rw (same, all_hex-lower s) refl

is_hex_of-lower : (n : ℕ) (s : Text) → is_hex_of n (lower s) ≡ is_hex_of n s
unfolding is_hex_of
is_hex_of-lower n s = rw (length-lower s, all_hex-lower s) refl

lower-lower : (s : Text) → lower (lower s) ≡ lower s
unfolding lower
lower-lower [] = refl
lower-lower (c ∷ s) =
    let twice : lower_char (lower_char c) ≡ lower_char c = ground arith in
    rw (twice, lower-lower s) refl

hash_type-lower : (s : Text) → hash_type (lower s) ≡ hash_type s
unfolding hash_type
hash_type-lower s = rw (is_hex_of-lower 32 s, is_hex_of-lower 40 s, is_hex_of-lower 64 s) refl

hash_type-hex : (s : Text) (t : IocType) → hash_type s ≡ some t → all is_hex s ≡ true
unfolding hash_type is_hex_of
hash_type-hex s t h = ground arith

-- A text of digits and letters up to "f" is neither blank nor changed by `refang`.
hash_type-plain : (s : Text) (t : IocType) → hash_type s ≡ some t → all is_plain s ≡ true
hash_type-plain s t h = all-weaken is_hex is_plain s (λ c hex. ground arith) (hash_type-hex s t h)

hash_type-nonempty : (s : Text) (t : IocType) → hash_type s ≡ some t → (s == []) ≡ false
unfolding hash_type is_hex_of text_eq ℕ_discrete
hash_type-nonempty [] t h = absurd (none-ne-some t h)
hash_type-nonempty (c ∷ s) t h = refl

-- "0" to "9", "a" to "f", "A" to "F".
abbrev pub IsHexDigit : ℕ → Type 0
IsHexDigit c = ((48 ≤ c) × (c ≤ 57)) ⊎ ((97 ≤ c) × (c ≤ 102)) ⊎ ((65 ≤ c) × (c ≤ 70))

-- The number of digits of each kind of hash.
abbrev pub IsDigestSize : ℕ → IocType → Type 0
IsDigestSize n t = ((n ≡ 32) × (t ≡ md5)) ⊎ ((n ≡ 40) × (t ≡ sha1)) ⊎ ((n ≡ 64) × (t ≡ sha256))

hex_digit : (c : ℕ) → is_hex c ≡ true → IsHexDigit c
hex_digit c h = ground (arith, h)

all_hex : (s : Text) → All IsHexDigit s → all is_hex s ≡ true
all_hex [] h = refl
all_hex (c ∷ s) (digit, digits) = ground (arith, all_hex s digits)

pub hex_digits : (s : Text) → all is_hex s ≡ true → All IsHexDigit s
hex_digits [] h = tt
hex_digits (c ∷ s) h =
    let digit : is_hex c ≡ true = ground (arith, h) in
    let digits : all is_hex s ≡ true = ground (arith, h) in (hex_digit c digit, hex_digits s digits)

hash_type-digest :
    (s : Text) (t : IocType) → All IsHexDigit s → IsDigestSize (length s) t → hash_type s ≡ some t
unfolding hash_type is_hex_of
hash_type-digest s t digits size = ground (arith, all_hex s digits, size)

module _ (P : Parsers) where
  classified :
      (v raw : Text) (t : IocType)
      → strip (refang raw) ≡ v
      → hash_type v ≡ some t
      → classify_indicator P raw ≡ parsed_as t (lower v)
  unfolding classify_indicator classify_value
  classified v raw t e h =
      rw (e, hash_type-nonempty v t h, classify_value, h) (ap (λ u. parsed_as t (lower u)) e)

  hash_canonical :
      (raw : Text) (t : IocType)
      → hash_type (strip (refang raw)) ≡ some t
      → (classify_indicator P raw ≡ parsed_as t (lower (strip (refang raw))))
        × (classify_indicator P (lower (strip (refang raw))) ≡ classify_indicator P raw)
  hash_canonical raw t h =
      let v = strip (refang raw) in
      let here = classified v raw t refl h in
      let h' : hash_type (lower v) ≡ some t = hash_type-lower v ∙ h in
      let plain = hash_type-plain (lower v) t h' in
      let dark = all-weaken is_plain is_dark (lower v) (λ c p. ground arith) plain in
      let fixed : strip (refang (lower v)) ≡ lower v =
        ap strip (refang-plain (lower v) plain) ∙ strip-dark (lower v) dark in
      (
        here,
        classified (lower v) (lower v) t fixed h' ∙ ap (parsed_as t) (lower-lower v) ∙ sym here,
      )

  -- A text of 32, 40 or 64 hexadecimal digits, once it is refanged and stripped, is classified as an
  -- MD5, SHA-1 or SHA-256, its value is in lower case, and that value is its own normal form:
  -- classified again, it gives the same indicator.
  pub classify-hash_canonical :
      (raw : Text) (t : IocType)
      → All IsHexDigit (strip (refang raw))
      → IsDigestSize (length (strip (refang raw))) t
      → (classify_indicator P raw ≡ parsed_as t (lower (strip (refang raw))))
        × (classify_indicator P (lower (strip (refang raw))) ≡ classify_indicator P raw)
  classify-hash_canonical raw t digits size =
      hash_canonical raw t (hash_type-digest (strip (refang raw)) t digits size)
