-- ===== src/Prelude/Text.antt =====
-- Python's `str` as the list of its code points. The case and white space of characters are those
-- of ASCII.
use Prim.Native.Char.{code}
use Prim.Native.Nat.{ℕ, zero, suc, ◌+◌, ◌-◌}
use Prim.Native.String.{String}
use mathlib.Core.Bool.{Bool, true, false, ◌&&◌, ◌||◌}
use mathlib.Core.List.{List, [], ◌∷◌, ◌++◌, map, reverse}
use native.Mathlib.Decide.{ℕ_discrete}
use cyber_threat_intelligenc.Prelude.Tests.{leb, if◌then◌else◌}
use cyber_threat_intelligenc.Prelude.Equality.{Eq, ◌==◌, nat_eq}
use cyber_threat_intelligenc.Prelude.Lists.{length}

abbrev pub Text : Type 0
Text = List ℕ

text_dec : Discrete Text
text_dec = hlevel ℕ_discrete

instance unfoldable pub text_eq : Eq Text
unfolding text_dec
text_eq = record { dec = text_dec }

-- A literal.
abbrev pub codes : String → Text
codes String.[] = []
codes (String.◌∷◌ c s) = code c ∷ codes s

abbrev pub is_space : ℕ → Bool
is_space c = (leb 9 c && leb c 13) || (leb 28 c && leb c 32)

abbrev pub lower_char : ℕ → ℕ
lower_char c = if leb 65 c && leb c 90 then c + 32 else c

-- `s.lower()`
unfoldable pub lower : Text → Text
lower = map lower_char

-- `s.lstrip()`
unfoldable pub strip_left : Text → Text
strip_left [] = []
strip_left (c ∷ s) = if is_space c then strip_left s else c ∷ s

-- `s.strip()`
unfoldable pub strip : Text → Text
unfolding strip_left
strip s = reverse (strip_left (reverse (strip_left s)))

-- `s.startswith(p)`
unfoldable pub starts_with : Text → Text → Bool
starts_with s [] = true
starts_with [] (d ∷ p) = false
starts_with (c ∷ s) (d ∷ p) = c == d && starts_with s p

-- `s.endswith(p)`
unfoldable pub ends_with : Text → Text → Bool
unfolding starts_with
ends_with s p = starts_with (reverse s) (reverse p)

abbrev pub upper_char : ℕ → ℕ
upper_char c = if leb 97 c && leb c 122 then c - 32 else c

-- `s.upper()`
unfoldable pub upper : Text → Text
upper = map upper_char

-- `p in s`
unfoldable pub occurs : Text → Text → Bool
unfolding starts_with
occurs p [] = p == []
occurs p (c ∷ s) = let later = occurs p s in starts_with (c ∷ s) p || later

-- The first `k` characters are already replaced. `fold` is what is compared of a character.
unfoldable pub replace_from : (ℕ → ℕ) → Text → Text → ℕ → Text → Text
unfolding starts_with
replace_from fold token by k [] = []
replace_from fold token by (suc k) (c ∷ s) = replace_from fold token by k s
replace_from fold token by zero (c ∷ s) =
    let found = starts_with (map fold (c ∷ s)) token in
    (if found then by else c ∷ [])
    ++ replace_from fold token by (if found then length token - 1 else 0) s

abbrev pub same : ℕ → ℕ
same c = c

-- `s.replace(token, by)`, for a token that is not empty.
unfoldable pub replace : Text → Text → Text → Text
unfolding replace_from
replace token by s = replace_from same token by 0 s

-- `s.split(sep)`
unfoldable pub push : ℕ → List Text → List Text
push c [] = (c ∷ []) ∷ []
push c (w ∷ ws) = (c ∷ w) ∷ ws

unfoldable pub split : ℕ → Text → List Text
unfolding push
split sep [] = [] ∷ []
split sep (c ∷ s) = let rest = split sep s in if c == sep then [] ∷ rest else push c rest
