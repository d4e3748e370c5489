-- ===== src/Scoring/Engine.antt =====
-- `compute_threat_score` of app/scoring/engine.py and the signals it weighs. A signal is a multiple
-- of a unit, `one` of which are 1.0; sums, products and quotients of floats are exact here.
pub mod Laws
use cyber_threat_intelligenc.Prelude.{
  ℕ, zero, suc, ◌+◌, ◌*◌, ◌/◌, ◌%◌, Bool, true, false, String, string_eq, Option, none, some, List,
  [], ◌∷◌, map, contains, min, ltb, if◌then◌else◌, ◌==◌, nat_eq,
}
use cyber_threat_intelligenc.Indicators.{ThreatLevel, Confidence}
use cyber_threat_intelligenc.Scoring.{
  Signal, source_reputation, detection_ratio, blacklist_presence, confidence, recency, frequency,
  geo_risk, port_risk, historical_activity, weight, level_for_score, confidence_fifths,
  source_reputation_quarters, port_risk_thirds,
}

-- `ScoreSignals`, a number of units for each key of `WEIGHTS`.
abbrev pub ScoreSignals : Type 0
ScoreSignals = Signal → ℕ

abbrev pub signals : List Signal
signals =
    source_reputation ∷ detection_ratio ∷ blacklist_presence ∷ confidence ∷ recency ∷ frequency
    ∷ geo_risk ∷ port_risk ∷ historical_activity ∷ []

pub record ScoreResult : Type 0 where
  pub score : ℕ
  pub level : ThreatLevel
  -- In hundredths of a point.
  pub contributions : List (Signal × ℕ)

-- `math.pow(0.5, age / half life)` and `math.log1p(n) / math.log1p(20)` in units, the age in
-- microseconds.
pub record Floats : Type 0 where
  pub one : ℕ
  pub decay : ℕ → ℕ
  pub log_share : ℕ → ℕ

-- `round(n / d)`, a half to the even neighbour.
unfoldable pub round_half_even : ℕ → ℕ → ℕ
round_half_even n d =
    let q = n / d in
    let r = 2 * (n % d) in if ltb r d then q else if ltb d r then q + 1 else q + q % 2

module _ (F : Floats) where
  -- `_clamp01`, of a value that is not negative.
  abbrev pub clamp : ℕ → ℕ
  clamp value = min value F.one

  unfoldable pub detection_share : ℕ → ℕ → ℕ
  detection_share detected total = if total == 0 then 0 else clamp (detected * F.one / total)

  unfoldable pub recency_score : ℕ → ℕ
  recency_score age = clamp (F.decay age)

  unfoldable pub frequency_score : ℕ → ℕ
  frequency_score sightings = if sightings == 0 then 0 else clamp (F.log_share sightings)

  unfoldable pub source_reputation_score : ℕ → ℕ
  source_reputation_score sources = source_reputation_quarters sources * F.one / 4

  unfoldable pub port_risk_score : List ℕ → ℕ
  port_risk_score ports = port_risk_thirds ports * F.one / 3

  -- The countries of the offline table, which are in upper case.
  unfoldable pub geo_risk_score : Option String → ℕ
  geo_risk_score none = 0
  geo_risk_score (some country) =
      if contains ("RU" ∷ "CN" ∷ "KP" ∷ "IR" ∷ "BY" ∷ []) country then F.one else 0

  -- The weighted sum of the clamped signals, in hundredths of a unit.
  unfoldable pub weighted : List Signal → ScoreSignals → ℕ
  weighted [] values = 0
  weighted (s ∷ ss) values = clamp (values s) * weight s + weighted ss values

  -- The weights sum to 1, so that `raw * 100` is the weighted sum in units.
  unfoldable pub compute_threat_score : ScoreSignals → ScoreResult
  unfolding weighted round_half_even level_for_score
  compute_threat_score values =
      let score = round_half_even (weighted signals values) F.one in
      record {
        score = score;
        level = level_for_score score;
        contributions =
            map (λ s. (s, round_half_even (clamp (values s) * weight s * 100) F.one)) signals;
      }
