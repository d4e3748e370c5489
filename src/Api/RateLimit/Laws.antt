-- ===== src/Api/RateLimit/Laws.antt =====
-- Buckets: what trimming and sweeping leave of the hits within the window.
use cyber_threat_intelligenc.Prelude.{
  ℕ, ◌+◌, ◌-◌, ◌≤◌, ◌≡◌, refl, Bool, true, List, [], ◌∷◌, ◌++◌, arith, length, leb, ltb, count, All,
  if◌then◌else◌, Bool-cases, inl, inr,
}
use cyber_threat_intelligenc.Prelude.Text.{text_eq}
use cyber_threat_intelligenc.Api.RateLimit.{window, trim, is_stale}

-- A hit at `t` lies within the window that ends now.
abbrev pub is_recent : ℕ → ℕ → Bool
is_recent now t = leb (now - t) window

pub trim-count :
    (now later : ℕ) (b : List ℕ)
    → now ≤ later
    → count (is_recent later) (trim now b) ≡ count (is_recent later) b
unfolding trim
trim-count now later [] h = refl
trim-count now later (t ∷ b) h = ground (arith, trim-count now later b h)

-- The hits of a bucket, the oldest first, none later than the given time.
abbrev pub IsOrdered : ℕ → List ℕ → Type 0
IsOrdered last [] = Unit
IsOrdered last (t ∷ b) = (t ≤ last) × All (λ u. t ≤ u) b × IsOrdered last b

still_recent :
    (now t : ℕ) (b : List ℕ)
    → is_recent now t ≡ true
    → All (λ u. t ≤ u) b
    → count (is_recent now) b ≡ length b
still_recent now t [] r h = refl
still_recent now t (u ∷ b) r (le, h) = ground (arith, r, le, still_recent now t b r h)

pub trim-length :
    (last now : ℕ) (b : List ℕ) → IsOrdered last b → length (trim now b) ≡ count (is_recent now) b
unfolding trim
trim-length last now [] o = refl
trim-length last now (t ∷ b) (le, above, o) = elim (Bool-cases (is_recent now t)) [
  | inl fresh ↦ ground (arith, fresh, still_recent now t b fresh above)
  | inr old ↦ ground (arith, old, trim-length last now b o)
]

pub trim-IsOrdered : (last now : ℕ) (b : List ℕ) → IsOrdered last b → IsOrdered last (trim now b)
unfolding trim
trim-IsOrdered last now [] o = tt
trim-IsOrdered last now (t ∷ b) (le, above, o) = elim (Bool-cases (ltb window (now - t))) [
  | inl old ↦ rw old (trim-IsOrdered last now b o)
  | inr fresh ↦ rw fresh (le, above, o)
]

above-append :
    (t now : ℕ) (b : List ℕ) → t ≤ now → All (λ u. t ≤ u) b → All (λ u. t ≤ u) (b ++ now ∷ [])
above-append t now [] le h = (le, tt)
above-append t now (u ∷ b) le (le', h) = (le', above-append t now b le h)

pub append-IsOrdered :
    (last now : ℕ) (b : List ℕ) → last ≤ now → IsOrdered last b → IsOrdered now (b ++ now ∷ [])
append-IsOrdered last now [] le o = (omega arith, tt, tt)
append-IsOrdered last now (t ∷ b) le (h, above, o) = (
  omega (arith, h, le),
  above-append t now b (omega (arith, h, le)) above,
  append-IsOrdered last now b le o,
)

pub later-IsOrdered : (last now : ℕ) (b : List ℕ) → last ≤ now → IsOrdered last b → IsOrdered now b
later-IsOrdered last now [] le o = tt
later-IsOrdered last now (t ∷ b) le (h, above, o) =
    (omega (arith, h, le), above, later-IsOrdered last now b le o)

pub count-append :
    (p : ℕ → Bool) (b : List ℕ) (now : ℕ)
    → count p (b ++ now ∷ []) ≡ count p b + (if p now then 1 else 0)
count-append p [] now = ground arith
count-append p (t ∷ b) now = ground (arith, count-append p b now)

pub stale-count :
    (last now later : ℕ) (b : List ℕ)
    → now ≤ later
    → IsOrdered last b
    → is_stale now b ≡ true
    → count (is_recent later) b ≡ 0
unfolding is_stale
stale-count last now later [] le o h = refl
stale-count last now later (t ∷ []) le o h = ground (arith, h)
stale-count last now later (t ∷ u ∷ b) le (_, (tu, _), o) h =
    let rest = stale-count last now later (u ∷ b) le o h in ground (arith, rest, tu)
