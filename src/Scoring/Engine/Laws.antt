-- ===== src/Scoring/Engine/Laws.antt =====
-- The range of the score, and what it grows with.
use mathlib.Core.Path.{subst}
use native.Mathlib.Nat.{
  mul-le-mul_left, mul-le-mul_right, div-add-mod, mod-lt, mul-add, mul-div_right, mul-mod_right,
  mul-suc,
}
use cyber_threat_intelligenc.Prelude.{
  ℕ, suc, ◌+◌, ◌*◌, ◌/◌, ◌%◌, ◌≤◌, ◌<◌, ◌≡◌, refl, ap, inl, inr, true, List, [], ◌∷◌, ltb, leb,
  if◌then◌else◌, arith, Bool-cases,
}
use cyber_threat_intelligenc.Scoring.{Signal, weight}
use cyber_threat_intelligenc.Scoring.Engine.{
  Floats, ScoreSignals, signals, weighted, round_half_even, compute_threat_score, clamp,
}

-- Rounding, from the quotient and the remainder.
abbrev rounded : ℕ → ℕ → ℕ → ℕ
rounded q r d = if ltb (2 * r) d then q else if ltb d (2 * r) then q + 1 else q + q % 2

rounded-below : (q r d : ℕ) → rounded q r d ≤ q + 1
rounded-below q r d = let even : q % 2 ≤ 1 = omega arith in ground arith

rounded-above : (q r d : ℕ) → q ≤ rounded q r d
rounded-above q r d = ground arith

rounded_mono : (q r r' d : ℕ) → r ≤ r' → rounded q r d ≤ rounded q r' d
rounded_mono q r r' d less = let even : q % 2 ≤ 1 = omega arith in ground arith

-- A larger number has no smaller quotient, and with the same quotient no smaller remainder.
round_half_even_mono : (n m d : ℕ) → 0 < d → n ≤ m → round_half_even n d ≤ round_half_even m d
unfolding round_half_even
round_half_even_mono n m d positive less =
    let en = div-add-mod n d in
    let em = div-add-mod m d in
    let rm = mod-lt m positive in
    elim (Bool-cases (leb (m / d) (n / d))) [
      | inr smaller ↦
          let step : n / d + 1 ≤ m / d = ground arith in
          let a = rounded-below (n / d) (n % d) d in
          let b = rounded-above (m / d) (m % d) d in omega arith
      | inl notless ↦ elim (Bool-cases (leb (n / d) (m / d))) [
        | inl same ↦
            let q : n / d ≡ m / d = ground arith in
            let scaled : d * (n / d) ≡ d * (m / d) = ap (d *◌) q in
            let r : n % d ≤ m % d = omega arith in
            subst (λ k. rounded (n / d) (n % d) d ≤ rounded k (m % d) d) q
              (rounded_mono (n / d) (n % d) (m % d) d r)
        | inr above ↦
            let step : suc (m / d) ≤ n / d = ground arith in
            let scaled = mul-le-mul_left d step in let unit = mul-suc d (m / d) in omega arith
      ]
    ]

abbrev total_weight : List Signal → ℕ
total_weight [] = 0
total_weight (s ∷ ss) = weight s + total_weight ss

module _ (F : Floats) where
  weighted-bound :
      (ss : List Signal) (values : ScoreSignals) → weighted F ss values ≤ F.one * total_weight ss
  unfolding weighted
  weighted-bound [] values = omega arith
  weighted-bound (s ∷ ss) values =
      let capped : clamp F (values s) ≤ F.one = omega arith in
      let here = mul-le-mul_right (weight s) capped in
      omega (arith, here, weighted-bound ss values, mul-add F.one (weight s) (total_weight ss))

  weighted_mono :
      (ss : List Signal) (low high : ScoreSignals)
      → ((s : Signal) → low s ≤ high s)
      → weighted F ss low ≤ weighted F ss high
  unfolding weighted
  weighted_mono [] low high less = omega arith
  weighted_mono (s ∷ ss) low high less =
      let at : low s ≤ high s = less s in
      let capped : clamp F (low s) ≤ clamp F (high s) = omega arith in
      let here = mul-le-mul_right (weight s) capped in
      omega (arith, here, weighted_mono ss low high less)

  -- The score is between 0 and 100, and no signal that grows lowers it.
  pub score_bounds :
      (low high : ScoreSignals)
      → 0 < F.one
      → ((s : Signal) → low s ≤ high s)
      → ((compute_threat_score F low).score ≤ (compute_threat_score F high).score)
        × ((compute_threat_score F high).score ≤ 100)
  unfolding compute_threat_score
  score_bounds low high positive less =
      let top : round_half_even (F.one * 100) F.one ≡ 100 =
        let q = mul-div_right 100 positive in
        let r = mul-mod_right F.one 100 in
        rw (q, r) (let low_half : ltb 0 F.one ≡ true = ground arith in rw low_half refl) in
      (
        round_half_even_mono (weighted F signals low) (weighted F signals high) F.one positive
            (weighted_mono signals low high less),
        subst (λ k. round_half_even (weighted F signals high) F.one ≤ k) top
            (round_half_even_mono (weighted F signals high) (F.one * 100) F.one positive
              (weighted-bound signals high)),
      )
