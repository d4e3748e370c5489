-- ===== src/Indicators/Extract/Stix/Termination.antt =====
-- The fuel of the scanner of STIX patterns.
use cyber_threat_intelligenc.Prelude.{
  ℕ, zero, suc, ◌≤◌, ◌≡◌, refl, sym, ap, ◌∙◌, inl, inr, Bool, true, false, Option, none, some, List,
  [], ◌∷◌, length, if◌then◌else◌, ◌==◌, nat_eq, arith, Bool-cases,
}
use cyber_threat_intelligenc.Prelude.Text.{Text, strip_left}
use cyber_threat_intelligenc.Indicators.Extract.Stix.{
  prepend, quoted, after_quote, match_quoted, scan,
}

-- What is left behind a match is not longer than `n`.
abbrev IsShorter : ℕ → Option (Text × Text) → Type 0
IsShorter n none = Unit
IsShorter n (some (group, rest)) = length rest ≤ n

prepend-IsShorter :
    (n : ℕ) (c : ℕ) (o : Option (Text × Text)) → IsShorter n o → IsShorter (suc n) (prepend c o)
prepend-IsShorter n c none short = tt
prepend-IsShorter n c (some (group, rest)) short = omega arith

quoted-IsShorter : (escaped : Bool) (s : Text) → IsShorter (length s) (quoted escaped s)
unfolding quoted
quoted-IsShorter escaped [] = tt
quoted-IsShorter true (c ∷ s) = elim (Bool-cases (c == 10)) [
  | inl line ↦ rw line tt
  | inr other ↦
      rw other (prepend-IsShorter (length s) c (quoted false s) (quoted-IsShorter false s))
]
quoted-IsShorter false (c ∷ s) = elim (Bool-cases (c == 39)) [
  | inl quote ↦ rw quote (omega arith)
  | inr other ↦
      rw other (prepend-IsShorter (length s) c (quoted (c == 92) s) (quoted-IsShorter (c == 92) s))
]

-- A larger bound.
weaken-IsShorter : (m n : ℕ) (o : Option (Text × Text)) → m ≤ n → IsShorter m o → IsShorter n o
weaken-IsShorter m n none less short = tt
weaken-IsShorter m n (some (group, rest)) less short = omega arith

strip_left-le : (s : Text) → length (strip_left s) ≤ length s
unfolding strip_left
strip_left-le [] = omega arith
strip_left-le (c ∷ s) = ground (arith, strip_left-le s)

after_quote-IsShorter : (s : Text) → IsShorter (length s) (after_quote s)
after_quote-IsShorter [] = tt
after_quote-IsShorter (c ∷ s) = elim (Bool-cases (c == 39)) [
  | inl quote ↦ rw quote (
      weaken-IsShorter (length s) (suc (length s)) (quoted false s) (omega arith)
        (quoted-IsShorter false s))
  | inr other ↦ rw other tt
]

match-IsShorter : (s : Text) → IsShorter (length s) (match_quoted s)
unfolding match_quoted
match-IsShorter s =
    weaken-IsShorter (length (strip_left s)) (length s) (after_quote (strip_left s))
      (strip_left-le s) (after_quote-IsShorter (strip_left s))

scan-nil : (fuel : ℕ) → scan fuel [] ≡ []
unfolding scan
scan-nil zero = refl
scan-nil (suc fuel) = refl

-- One turn of the scanner, with the scanner of what is left: whether it is at an equals sign, the
-- text behind, and the match.
abbrev turn : (Text → List Text) → Bool → Text → Option (Text × Text) → List Text
turn go equals s o = elim (if equals then o else none) [
  | none ↦ go s
  | some (group, rest) ↦ group ∷ go rest
]

turn-same :
    (f g : Text → List Text) (equals : Bool) (s : Text) (o : Option (Text × Text))
    → IsShorter (length s) o
    → ((t : Text) → length t ≤ length s → f t ≡ g t)
    → turn f equals s o ≡ turn g equals s o
turn-same f g false s o short same = same s (omega arith)
turn-same f g true s none short same = same s (omega arith)
turn-same f g true s (some (group, rest)) short same = ap (group ∷◌) (same rest short)

-- The scanner ends: any two amounts of fuel that are no less than the length of the text find the
-- same in it, so that the fuel that the importer gives, that length, loses no match.
pub scan-enough : (m n : ℕ) (s : Text) → length s ≤ m → length s ≤ n → scan m s ≡ scan n s
unfolding scan
scan-enough m n [] enough enough' = scan-nil m ∙ sym (scan-nil n)
scan-enough zero n (c ∷ s) enough enough' = absurd (omega arith)
scan-enough (suc m) zero (c ∷ s) enough enough' = absurd (omega arith)
scan-enough (suc m) (suc n) (c ∷ s) enough enough' =
    turn-same (scan m) (scan n) (c == 61) s (match_quoted s) (match-IsShorter s)
      (λ t shorter. scan-enough m n t (omega arith) (omega arith))
