-- ===== src/Indicators/Fang/Laws/RoundTrip.antt =====
-- The round trip of a host or an address through `defang` and `refang`.
use cyber_threat_intelligenc.Prelude.{
  ℕ, ◌≡◌, refl, ap, ◌∙◌, true, false, List, [], ◌∷◌, drop, all, contains, concat_map, ◌==◌, nat_eq,
  arith,
}
use native.Mathlib.Decide.{ℕ_discrete}
use cyber_threat_intelligenc.Prelude.Text.{
  Text, text_eq, codes, lower_char, lower, strip, starts_with, occurs, replace_from, replace,
}
use cyber_threat_intelligenc.Indicators.Fang.{
  is_letter, refang, refang_loop, refang_step, is_scheme_token, refang_replacements, defang,
}
use cyber_threat_intelligenc.Indicators.Fang.Laws.{
  is_dark, strip-dark, all-append, refang_loop-fixed, replace_from-absent, replace-absent,
  occurs-absent, lacks, refang_step-lacks, all-weaken,
}
use cyber_threat_intelligenc.Indicators.Fang.Laws.Hosts.{
  is_host_text, dots, ats, both, bracket-dots, bracket-ats, unbracket-dots, unbracket-ats,
  keep-dot_words, lacks-concat_map, occurs-both, occurs-longer,
}

-- The steps of `refang` on a text without scheme tokens, its dots and at signs bracketed.
scheme-both :
    (d : ℕ) (t by s : Text)
    → all is_letter (d ∷ t) ≡ true
    → (97 == d) ≡ false
    → (116 == d) ≡ false
    → occurs (d ∷ t) (lower s) ≡ false
    → replace_from lower_char (d ∷ t) by 0 (concat_map both s) ≡ concat_map both s
unfolding lower
scheme-both d t by s letters a_differs t_differs h =
    replace_from-absent lower_char (d ∷ t) by (concat_map both s)
      (occurs-both s d t letters a_differs t_differs ∙ h)

-- One step, then the others.
step_then :
    (r : Text × Text) (rs : List (Text × Text)) (s t u : Text)
    → refang_step r s ≡ t
    → refang_loop rs t ≡ u
    → refang_loop (r ∷ rs) s ≡ u
unfolding refang_loop
step_then r rs s t u now later = ap (refang_loop rs) now ∙ later

dark-concat_map : (s : Text) → all is_host_text s ≡ true → all is_dark (concat_map both s) ≡ true
dark-concat_map [] host = refl
dark-concat_map (c ∷ s) host =
    ground (arith, dark-concat_map s, all-append is_dark (both c) (concat_map both s))

defang-both :
    (s : Text)
    → all is_host_text s ≡ true
    → occurs (codes "http") s ≡ false
    → defang s ≡ concat_map both s
unfolding defang ℕ_discrete
defang-both s host no_http =
    let no_colon : contains (concat_map dots s) 58 ≡ false =
      lacks-concat_map dots 58 s (λ c h. ground arith) host in
    ap
      (λ t.
        replace (codes "@") (codes "[at]")
          (replace (codes "://") (codes "[://]") (replace (codes ".") (codes "[.]") t)))
      (replace-absent (codes "http") (codes "hxxp") s no_http)
    ∙ ap (λ t. replace (codes "@") (codes "[at]") (replace (codes "://") (codes "[://]") t))
        (bracket-dots s)
    ∙ ap (replace (codes "@") (codes "[at]")) (
        replace-absent (codes "://") (codes "[://]") (concat_map dots s)
          (occurs-absent 58 (codes "://") (concat_map dots s) refl no_colon))
    ∙ bracket-ats s

-- The tokens up to "[.]" on a text whose dots and at signs are bracketed.
loop-both :
    (s : Text)
    → all is_host_text s ≡ true
    → occurs (codes "hxxp") (lower s) ≡ false
    → occurs (codes "fxp") (lower s) ≡ false
    → refang_loop refang_replacements (concat_map both s)
      ≡ refang_loop (drop 4 refang_replacements) (concat_map ats s)
unfolding refang_step is_scheme_token starts_with text_eq ℕ_discrete
loop-both s host no_hxxp no_fxp =
    let long = occurs-longer (lower s) 104 (codes "xxp") (codes "s") no_hxxp in
    step_then (codes "hxxps", codes "https") (drop 1 refang_replacements) b b u
      (scheme-both 104 (codes "xxps") (codes "https") s refl refl refl long)
      (step_then (codes "hxxp", codes "http") (drop 2 refang_replacements) b b u
        (scheme-both 104 (codes "xxp") (codes "http") s refl refl refl no_hxxp)
        (step_then (codes "fxp", codes "ftp") (drop 3 refang_replacements) b b u
          (scheme-both 102 (codes "xp") (codes "ftp") s refl refl refl no_fxp)
          (step_then (codes "[.]", codes ".") (drop 4 refang_replacements) b (concat_map ats s) u
            (unbracket-dots s host) refl)))
  where
    b : Text
    b = concat_map both s

    u : Text
    u = refang_loop (drop 4 refang_replacements) (concat_map ats s)

-- The tokens behind it, of which "[at]" is the one that occurs.
loop-ats :
    (s : Text)
    → all is_host_text s ≡ true
    → refang_loop (drop 4 refang_replacements) (concat_map ats s) ≡ s
unfolding refang_step is_scheme_token starts_with text_eq ℕ_discrete
loop-ats s host =
    let no : (d : ℕ) (t by : Text)
        → is_scheme_token t ≡ false
        → contains t d ≡ true
        → ((c : ℕ) → is_host_text c ≡ true → contains (ats c) d ≡ false)
        → refang_step (t, by) a ≡ a =
      λ d t by literal has ex.
        refang_step-lacks d t by a literal has (lacks-concat_map ats d s ex host) in
    let square : contains s 91 ≡ false = lacks is_host_text 91 s (λ c h. ground arith) host in
    let round : contains s 40 ≡ false = lacks is_host_text 40 s (λ c h. ground arith) host in
    let back : contains s 92 ≡ false = lacks is_host_text 92 s (λ c h. ground arith) host in
    step_then (codes "(.)", codes ".") (drop 5 refang_replacements) a a s
      (no 40 (codes "(.)") (codes ".") refl refl (λ c h. ground arith))
      (step_then (codes "{.}", codes ".") (drop 6 refang_replacements) a a s
        (no 123 (codes "{.}") (codes ".") refl refl (λ c h. ground arith))
        (step_then (codes "[dot]", codes ".") (drop 7 refang_replacements) a a s
          (keep-dot_words s host)
          (step_then (codes "(dot)", codes ".") (drop 8 refang_replacements) a a s
            (no 40 (codes "(dot)") (codes ".") refl refl (λ c h. ground arith))
            (step_then (codes " dot ", codes ".") (drop 9 refang_replacements) a a s
              (no 32 (codes " dot ") (codes ".") refl refl (λ c h. ground arith))
              (step_then (codes "[:]", codes ":") (drop 10 refang_replacements) a a s
                (no 58 (codes "[:]") (codes ":") refl refl (λ c h. ground arith))
                (step_then (codes "[://]", codes "://") (drop 11 refang_replacements) a a s
                  (no 58 (codes "[://]") (codes "://") refl refl (λ c h. ground arith))
                  (step_then (codes "[at]", codes "@") (drop 12 refang_replacements) a s s
                    (unbracket-ats s host)
                    (refang_loop-fixed (drop 12 refang_replacements) s (
                      refang_step-lacks 40 (codes "(at)") (codes "@") s refl refl round,
                      (
                        refang_step-lacks 91 (codes "[@]") (codes "@") s refl refl square,
                        (refang_step-lacks 92 (codes "\\.") (codes ".") s refl refl back, tt),
                      ),
                    )))))))))
  where
    a : Text
    a = concat_map ats s

-- A text made of the characters of a host or a mail address, in which no "http" and no defanged
-- scheme occurs, is what `refang` gives back of its defanged form.
pub refang-defang :
    (s : Text)
    → all is_host_text s ≡ true
    → occurs (codes "http") s ≡ false
    → occurs (codes "hxxp") (lower s) ≡ false
    → occurs (codes "fxp") (lower s) ≡ false
    → refang (defang s) ≡ s
unfolding refang
refang-defang s host no_http no_hxxp no_fxp =
    let dark = strip-dark (concat_map both s) (dark-concat_map s host) in
    let bare = strip-dark s (all-weaken is_host_text is_dark s (λ c h. ground arith) host) in
    ap refang (defang-both s host no_http)
    ∙ ap (λ t. strip (refang_loop refang_replacements t)) dark
    ∙ ap strip (loop-both s host no_hxxp no_fxp ∙ loop-ats s host)
    ∙ bare
