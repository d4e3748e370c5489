-- ===== src/Indicators/Patterns.antt =====
-- The regular expressions of app/ioc/indicators.py as tests. A text comes to them stripped, so that
-- `$` is its end. Letters and digits are those of ASCII.
use mathlib.Core.List.{reverse}
use cyber_threat_intelligenc.Prelude.{
  ℕ, Bool, true, false, not, ◌&&◌, ◌||◌, List, [], ◌∷◌, all, length, leb, ◌==◌, nat_eq,
}
use cyber_threat_intelligenc.Prelude.Text.{Text, text_eq, codes, lower, starts_with, split}
use cyber_threat_intelligenc.Indicators.Fang.{is_letter}

-- `[0-9]`
abbrev pub is_digit : ℕ → Bool
is_digit c = leb 48 c && leb c 57

-- `[a-f0-9]`, case ignored.
abbrev pub is_hex : ℕ → Bool
is_hex c = is_digit c || ((leb 97 c && leb c 102) || (leb 65 c && leb c 70))

-- `_MD5_RE`, `_SHA1_RE` and `_SHA256_RE` for `n` of 32, 40 and 64.
unfoldable pub is_hex_of : ℕ → Text → Bool
is_hex_of n s = length s == n && all is_hex s

-- `\d{m,n}`
abbrev pub digits : ℕ → ℕ → Text → Bool
digits m n s = leb m (length s) && (leb (length s) n && all is_digit s)

cve_parts : List Text → Bool
unfolding lower
cve_parts (name ∷ year ∷ number ∷ []) =
    lower name == codes "cve" && (digits 4 4 year && digits 4 7 number)
cve_parts _ = false

-- `_CVE_RE`
unfoldable pub is_cve : Text → Bool
unfolding cve_parts split
is_cve s = cve_parts (split 45 s)

technique_parts : List Text → Bool
technique_parts (number ∷ []) = digits 4 4 number
technique_parts (number ∷ sub ∷ []) = digits 4 4 number && digits 3 3 sub
technique_parts _ = false

-- `_TECHNIQUE_RE`
unfoldable pub is_technique : Text → Bool
unfolding technique_parts split
is_technique [] = false
is_technique (c ∷ s) = c == 84 && technique_parts (split 46 s)

-- `[a-z0-9.\-]`
abbrev pub is_host_char : ℕ → Bool
is_host_char c = is_letter c || (is_digit c || (c == 46 || c == 45))

-- `[a-z0-9._%+\-]`
abbrev pub is_local_char : ℕ → Bool
is_local_char c = is_host_char c || (c == 95 || (c == 37 || c == 43))

-- What `.+` in front of the last dot does not match.
abbrev is_blank : List Text → Bool
is_blank [] = true
is_blank ([] ∷ []) = true
is_blank _ = false

-- The labels of a host, the last first: `.+\.[a-z]{2,}`.
host_parts : List Text → Bool
host_parts (tld ∷ rest) = leb 2 (length tld) && (all is_letter tld && not (is_blank rest))
host_parts [] = false

email_parts : List Text → Bool
unfolding host_parts split
email_parts (name ∷ host ∷ []) =
    not (name == [])
    && (all is_local_char name && (all is_host_char host && host_parts (reverse (split 46 host))))
email_parts _ = false

-- `_EMAIL_RE`
unfoldable pub is_email : Text → Bool
unfolding email_parts split
is_email s = email_parts (split 64 s)

-- `[a-z0-9\-]{1,63}`
abbrev pub is_label : Text → Bool
is_label s = leb 1 (length s) && (leb (length s) 63 && all (λ c. is_host_char c && not (c == 46)) s)

domain_parts : List Text → Bool
domain_parts (tld ∷ label ∷ labels) =
    leb 2 (length tld)
    && (leb (length tld) 63 && (all is_letter tld && all is_label (label ∷ labels)))
domain_parts _ = false

-- `_DOMAIN_RE`
unfoldable pub is_domain : Text → Bool
unfolding domain_parts split starts_with
is_domain s =
    leb (length s) 253 && (not (starts_with s (codes "-")) && domain_parts (reverse (split 46 s)))
