-- ===== src/Scoring.antt =====
-- The levels of app/scoring/engine.py, and the signals that are no more than a count or a look-up.
-- A share of `n` in 3 is the number `n`.
pub mod Laws
pub mod Engine
use cyber_threat_intelligenc.Prelude.{
  ℕ, Bool, List, [], ◌∷◌, leb, min, contains, count, if◌then◌else◌, nat_eq,
}
use cyber_threat_intelligenc.Indicators
use cyber_threat_intelligenc.Indicators.{ThreatLevel, Confidence}

unfoldable pub level_for_score : ℕ → ThreatLevel
level_for_score score =
    if leb 85 score
    then ThreatLevel.critical
    else if leb 65 score
    then ThreatLevel.high
    else if leb 40 score
    then ThreatLevel.medium
    else if leb 15 score
    then ThreatLevel.low
    else ThreatLevel.clean

abbrev pub risky_ports : List ℕ
risky_ports =
    21 ∷ 22 ∷ 23 ∷ 135 ∷ 139 ∷ 445 ∷ 1433 ∷ 3306 ∷ 3389 ∷ 4444 ∷ 5900 ∷ 6379 ∷ 8080 ∷ 9001 ∷ 9050
    ∷ []

-- `port_risk_score`, in thirds.
unfoldable pub port_risk_thirds : List ℕ → ℕ
port_risk_thirds open_ports = min (count (contains risky_ports) open_ports) 3

-- `source_reputation_score` with `saturate_at=4`, in quarters.
unfoldable pub source_reputation_quarters : ℕ → ℕ
source_reputation_quarters reputable_sources = min reputable_sources 4

-- `_CONFIDENCE_SCORE`, in fifths.
abbrev pub confidence_fifths : Confidence → ℕ
confidence_fifths Confidence.unknown = 1
confidence_fifths Confidence.low = 2
confidence_fifths Confidence.medium = 3
confidence_fifths Confidence.high = 4
confidence_fifths Confidence.confirmed = 5

-- The keys of `WEIGHTS`, and the weights in hundredths.
pub data Signal : Type 0 where
  source_reputation detection_ratio blacklist_presence confidence recency frequency geo_risk
        port_risk historical_activity :
      Signal

abbrev pub weight : Signal → ℕ
weight source_reputation = 22
weight detection_ratio = 20
weight blacklist_presence = 14
weight confidence = 12
weight recency = 10
weight frequency = 8
weight geo_risk = 6
weight port_risk = 5
weight historical_activity = 3
