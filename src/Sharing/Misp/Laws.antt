-- ===== src/Sharing/Misp/Laws.antt =====
-- How bad an event is.
use mathlib.Core.Path.{subst}
use cyber_threat_intelligenc.Prelude.{
  ℕ, ◌≤◌, ◌≡◌, ◌⊎◌, refl, inl, inr, true, List, [], ◌∷◌, All, any, min, leb, ◌==◌, nat_eq, arith,
  Bool-cases,
}
use cyber_threat_intelligenc.Iocs.{IocRow}
use cyber_threat_intelligenc.Sharing.Misp.{level_id, minimum, worst_level}

-- A smaller bound is a bound.
bound_trans :
    (m n : ℕ) (iocs : List IocRow)
    → m ≤ n
    → All (λ ioc. n ≤ level_id ioc) iocs
    → All (λ ioc. m ≤ level_id ioc) iocs
bound_trans m n [] less bounds = tt
bound_trans m n (ioc ∷ iocs) less (now, later) = (omega arith, bound_trans m n iocs less later)

minimum-first : (first : ℕ) (iocs : List IocRow) → minimum first iocs ≤ first
minimum-first first [] = omega arith
minimum-first first (ioc ∷ iocs) = omega arith

minimum-bound :
    (first : ℕ) (iocs : List IocRow) → All (λ ioc. minimum first iocs ≤ level_id ioc) iocs
minimum-bound first [] = tt
minimum-bound first (ioc ∷ iocs) =
    let rest = minimum (level_id ioc) iocs in
    let below : min first rest ≤ rest = omega arith in
    let here = minimum-first (level_id ioc) iocs in
    (omega arith, bound_trans (min first rest) rest iocs below (minimum-bound (level_id ioc) iocs))

abbrev Attains : ℕ → List IocRow → Type 0
Attains m iocs = any (λ ioc. level_id ioc == m) iocs ≡ true

-- The first row has the level, or a later one has.
cons-Attains :
    (m : ℕ) (ioc : IocRow) (iocs : List IocRow)
    → (m ≡ level_id ioc) ⊎ Attains m iocs
    → Attains m (ioc ∷ iocs)
cons-Attains m ioc iocs (inl here) = ground arith
cons-Attains m ioc iocs (inr later) = ground arith

minimum-attained :
    (first : ℕ) (iocs : List IocRow)
    → (minimum first iocs ≡ first) ⊎ Attains (minimum first iocs) iocs
minimum-attained first [] = inl refl
minimum-attained first (ioc ∷ iocs) =
    let rest = minimum (level_id ioc) iocs in
    let among = cons-Attains rest ioc iocs (minimum-attained (level_id ioc) iocs) in
    elim (Bool-cases (leb first rest)) [
      | inl less ↦ inl (ground arith)
      | inr more ↦
          let e : rest ≡ min first rest = ground arith in
          inr (subst (λ m. Attains m (ioc ∷ iocs)) e among)
    ]

-- The level of an event is the level of one of its rows, 4 if it has none, and none of its rows is
-- worse: a smaller number is a worse level.
worst_level_exact :
    (iocs : List IocRow)
    → All (λ ioc. worst_level iocs ≤ level_id ioc) iocs
      × ((worst_level iocs ≡ 4) ⊎ (any (λ ioc. level_id ioc == worst_level iocs) iocs ≡ true))
unfolding worst_level
worst_level_exact [] = (tt, inl refl)
worst_level_exact (ioc ∷ iocs) = (
  (minimum-first (level_id ioc) iocs, minimum-bound (level_id ioc) iocs),
  inr (cons-Attains (minimum (level_id ioc) iocs) ioc iocs (minimum-attained (level_id ioc) iocs)),
)
