-- ===== src/Indicators/Fang/Laws.antt =====
-- Texts that `refang` leaves as they are, and what `defang` turns into.
pub mod Hosts
pub mod RoundTrip
use cyber_threat_intelligenc.Prelude.{
  ℕ, zero, suc, ◌≡◌, refl, sym, ap, ◌∙◌, inl, inr, Bool, true, false, not, ◌&&◌, ◌||◌, List, [],
  ◌∷◌, ◌++◌, drop, All, map, all, contains, leb, if◌then◌else◌, ◌==◌, nat_eq, arith, Bool-cases,
}
use mathlib.Core.List.{reverse, reverse-append, reverse-reverse}
use native.Mathlib.Decide.{ℕ_discrete}
use cyber_threat_intelligenc.Prelude.Text.{
  Text, text_eq, codes, is_space, lower_char, lower, strip_left, strip, starts_with, occurs,
  replace_from, replace, same,
}
use cyber_threat_intelligenc.Indicators.Fang.{
  refang, refang_loop, refang_step, is_scheme_token, refang_replacements,
}

-- A token that is not in the text is not replaced.
pub replace_from-absent :
    (fold : ℕ → ℕ) (token by s : Text)
    → occurs token (map fold s) ≡ false
    → replace_from fold token by 0 s ≡ s
unfolding replace_from occurs
replace_from-absent fold token by [] h = refl
replace_from-absent fold token by (c ∷ s) h =
    elim (Bool-cases (starts_with (map fold (c ∷ s)) token)) [
      | inl found ↦ absurd (cc (rw (found, occurs) at h))
      | inr kept ↦
          let later : occurs token (map fold s) ≡ false = rw (kept, occurs) at h in
          rw kept (ap (c ∷◌) (replace_from-absent fold token by s later))
    ]

map-same : (s : Text) → map same s ≡ s
map-same [] = refl
map-same (c ∷ s) = ap (c ∷◌) (map-same s)

pub replace-absent : (token by s : Text) → occurs token s ≡ false → replace token by s ≡ s
unfolding replace
replace-absent token by s h =
    replace_from-absent same token by s (ap (occurs token) (map-same s) ∙ h)

-- A character of the token that is not in the text keeps the token out.
starts-absent :
    (d : ℕ) (s p : Text) → contains p d ≡ true → contains s d ≡ false → starts_with s p ≡ false
unfolding starts_with
starts-absent d s [] has lacks = absurd (cc has)
starts-absent d [] (e ∷ p) has lacks = refl
starts-absent d (c ∷ s) (e ∷ p) has lacks = ground (arith, starts-absent d s p)

pub occurs-absent :
    (d : ℕ) (p s : Text) → contains p d ≡ true → contains s d ≡ false → occurs p s ≡ false
unfolding occurs text_eq
occurs-absent d [] [] has lacks = absurd (cc has)
occurs-absent d (e ∷ p) [] has lacks = refl
occurs-absent d p (c ∷ s) has lacks =
    ground (arith, starts-absent d (c ∷ s) p has lacks, occurs-absent d p s)

-- No white space, so that nothing is stripped.
abbrev pub is_dark : ℕ → Bool
is_dark c = not (is_space c)

pub all-append : (p : ℕ → Bool) (s t : Text) → all p (s ++ t) ≡ (all p s && all p t)
all-append p [] t = refl
all-append p (c ∷ s) t = ground (arith, all-append p s t)

all-reverse : (p : ℕ → Bool) (s : Text) → all p (reverse s) ≡ all p s
all-reverse p [] = refl
all-reverse p (c ∷ s) =
    let step = ap (all p) (reverse-append (c ∷ []) s) ∙ all-append p (reverse s) (c ∷ []) in
    ground (arith, step, all-reverse p s)

strip_left-dark : (s : Text) → all is_dark s ≡ true → strip_left s ≡ s
unfolding strip_left
strip_left-dark [] dark = refl
strip_left-dark (c ∷ s) dark = ground arith

pub strip-dark : (s : Text) → all is_dark s ≡ true → strip s ≡ s
unfolding strip
strip-dark s dark =
    rw (strip_left-dark s dark, strip_left-dark (reverse s) (all-reverse is_dark s ∙ dark))
      (reverse-reverse s)

-- Characters that are in no token but the letters and the dot: a text of these without "x" is left
-- alone.
abbrev pub is_plain : ℕ → Bool
is_plain c = is_dark c && not (contains (91 ∷ 40 ∷ 123 ∷ 92 ∷ 120 ∷ 88 ∷ []) c)

-- A property of each character that excludes `d` keeps `d` out, also from what `f` makes of them.
pub map-lacks :
    (p : ℕ → Bool) (f : ℕ → ℕ) (d : ℕ) (s : Text)
    → ((c : ℕ) → p c ≡ true → (f c == d) ≡ false)
    → all p s ≡ true
    → contains (map f s) d ≡ false
map-lacks p f d [] excludes h = refl
map-lacks p f d (c ∷ s) excludes h = ground (arith, excludes c, map-lacks p f d s excludes)

pub lacks :
    (p : ℕ → Bool) (d : ℕ) (s : Text)
    → ((c : ℕ) → p c ≡ true → (c == d) ≡ false)
    → all p s ≡ true
    → contains s d ≡ false
lacks p d [] excludes h = refl
lacks p d (c ∷ s) excludes h = ground (arith, excludes c, lacks p d s excludes)

lower-excludes-x : (c : ℕ) → is_plain c ≡ true → (lower_char c == 120) ≡ false
lower-excludes-x c h = ground arith

-- Steps that change nothing.
pub refang_loop-fixed :
    (rs : List (Text × Text)) (s : Text) → All (λ r. refang_step r s ≡ s) rs → refang_loop rs s ≡ s
unfolding refang_loop
refang_loop-fixed [] s fixed = refl
refang_loop-fixed (r ∷ rs) s (now, later) = ap (refang_loop rs) now ∙ refang_loop-fixed rs s later

pub refang_step-lacks :
    (d : ℕ) (t by s : Text)
    → is_scheme_token t ≡ false
    → contains t d ≡ true
    → contains s d ≡ false
    → refang_step (t, by) s ≡ s
unfolding refang_step
refang_step-lacks d t by s literal has lacks =
    rw literal (replace-absent t by s (occurs-absent d t s has lacks))

-- The tokens after the scheme tokens.
abbrev pub punctuation : List (Text × Text)
punctuation = drop 3 refang_replacements

refang_loop-plain : (s : Text) → all is_plain s ≡ true → refang_loop refang_replacements s ≡ s
unfolding refang_loop refang_step is_scheme_token starts_with text_eq ℕ_discrete
refang_loop-plain s plain =
    let x : contains (map lower_char s) 120 ≡ false =
      map-lacks is_plain lower_char 120 s lower-excludes-x plain in
    let scheme : (t by : Text) → contains t 120 ≡ true → replace_from lower_char t by 0 s ≡ s =
      λ t by has.
        replace_from-absent lower_char t by s (occurs-absent 120 t (map lower_char s) has x) in
    let square : contains s 91 ≡ false = lacks is_plain 91 s (λ c p. ground arith) plain in
    let round : contains s 40 ≡ false = lacks is_plain 40 s (λ c p. ground arith) plain in
    let brace : contains s 123 ≡ false = lacks is_plain 123 s (λ c p. ground arith) plain in
    let space : contains s 32 ≡ false = lacks is_plain 32 s (λ c p. ground arith) plain in
    let back : contains s 92 ≡ false = lacks is_plain 92 s (λ c p. ground arith) plain in
    refang_loop-fixed refang_replacements s (
      scheme (codes "hxxps") (codes "https") refl,
      (
        scheme (codes "hxxp") (codes "http") refl,
        (
          scheme (codes "fxp") (codes "ftp") refl,
          (
            refang_step-lacks 91 (codes "[.]") (codes ".") s refl refl square,
            (
              refang_step-lacks 40 (codes "(.)") (codes ".") s refl refl round,
              (
                refang_step-lacks 123 (codes "{.}") (codes ".") s refl refl brace,
                (
                  refang_step-lacks 91 (codes "[dot]") (codes ".") s refl refl square,
                  (
                    refang_step-lacks 40 (codes "(dot)") (codes ".") s refl refl round,
                    (
                      refang_step-lacks 32 (codes " dot ") (codes ".") s refl refl space,
                      (
                        refang_step-lacks 91 (codes "[:]") (codes ":") s refl refl square,
                        (
                          refang_step-lacks 91 (codes "[://]") (codes "://") s refl refl square,
                          (
                            refang_step-lacks 91 (codes "[at]") (codes "@") s refl refl square,
                            (
                              refang_step-lacks 40 (codes "(at)") (codes "@") s refl refl round,
                              (
                                refang_step-lacks 91 (codes "[@]") (codes "@") s refl refl square,
                                (
                                  refang_step-lacks 92 (codes "\\.") (codes ".") s refl refl back,
                                  tt,
                                ),
                              ),
                            ),
                          ),
                        ),
                      ),
                    ),
                  ),
                ),
              ),
            ),
          ),
        ),
      ),
    )

pub all-weaken :
    (p q : ℕ → Bool) (s : Text)
    → ((c : ℕ) → p c ≡ true → q c ≡ true)
    → all p s ≡ true
    → all q s ≡ true
all-weaken p q [] w h = refl
all-weaken p q (c ∷ s) w h = ground (arith, w c, all-weaken p q s w)

-- `refang` leaves a text of plain characters as it is.
pub refang-plain : (s : Text) → all is_plain s ≡ true → refang s ≡ s
unfolding refang
refang-plain s plain =
    let dark = all-weaken is_plain is_dark s (λ c p. ground arith) plain in
    ap (λ t. strip (refang_loop refang_replacements t)) (strip-dark s dark)
    ∙ ap strip (refang_loop-plain s plain)
    ∙ strip-dark s dark
