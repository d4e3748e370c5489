-- ===== src/Indicators/Fang.antt =====
-- `refang` and `defang` of app/ioc/indicators.py.
pub mod Laws
use cyber_threat_intelligenc.Prelude.{
  ℕ, Bool, true, false, not, ◌&&◌, ◌||◌, List, [], ◌∷◌, map, all, leb, if◌then◌else◌, ◌==◌, nat_eq,
}
use cyber_threat_intelligenc.Prelude.Text.{
  Text, text_eq, codes, lower_char, strip, starts_with, replace, replace_from,
}

-- `_REFANG_REPLACEMENTS`, each token with what it stands for.
abbrev pub refang_replacements : List (Text × Text)
refang_replacements =
    (codes "hxxps", codes "https")
    ∷ (codes "hxxp", codes "http")
    ∷ (codes "fxp", codes "ftp")
    ∷ (codes "[.]", codes ".")
    ∷ (codes "(.)", codes ".")
    ∷ (codes "{.}", codes ".")
    ∷ (codes "[dot]", codes ".")
    ∷ (codes "(dot)", codes ".")
    ∷ (codes " dot ", codes ".")
    ∷ (codes "[:]", codes ":")
    ∷ (codes "[://]", codes "://")
    ∷ (codes "[at]", codes "@")
    ∷ (codes "(at)", codes "@")
    ∷ (codes "[@]", codes "@")
    ∷ (codes "\\.", codes ".")
    ∷ []

-- `c.isalpha()`
abbrev pub is_letter : ℕ → Bool
is_letter c = (leb 97 c && leb c 122) || (leb 65 c && leb c 90)

-- `token.isalpha() or token.startswith(("h", "f"))`
unfoldable pub is_scheme_token : Text → Bool
unfolding starts_with
is_scheme_token token =
    (not (token == []) && all is_letter token)
    || (starts_with token (codes "h") || starts_with token (codes "f"))

-- One turn of the loop. The scheme tokens are in lower case, so that a match that ignores case
-- compares with the lower case of the text.
unfoldable pub refang_step : Text × Text → Text → Text
unfolding is_scheme_token
refang_step (token, by) s =
    if is_scheme_token token then replace_from lower_char token by 0 s else replace token by s

unfoldable pub refang_loop : List (Text × Text) → Text → Text
unfolding refang_step
refang_loop [] s = s
refang_loop (r ∷ rs) s = refang_loop rs (refang_step r s)

unfoldable pub refang : Text → Text
unfolding refang_loop
refang value = strip (refang_loop refang_replacements (strip value))

unfoldable pub defang : Text → Text
unfolding replace
defang value = replace (codes "@") (codes "[at]") (
    replace (codes "://") (codes "[://]")
      (replace (codes ".") (codes "[.]") (replace (codes "http") (codes "hxxp") value)))
