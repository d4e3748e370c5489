-- ===== src/Scoring/Laws.antt =====
-- A higher score never has a lower level.
use cyber_threat_intelligenc.Prelude.{ℕ, ◌+◌, ◌≤◌, ◌≡◌, refl, List, arith}
use cyber_threat_intelligenc.Indicators.{ThreatLevel}
use cyber_threat_intelligenc.Scoring.{
  level_for_score, port_risk_thirds, source_reputation_quarters, weight, source_reputation,
  detection_ratio, blacklist_presence, confidence, recency, frequency, geo_risk, port_risk,
  historical_activity,
}

abbrev pub rank : ThreatLevel → ℕ
rank ThreatLevel.clean = 0
rank ThreatLevel.low = 1
rank ThreatLevel.medium = 2
rank ThreatLevel.high = 3
rank ThreatLevel.critical = 4

-- Of two scores, the higher one has a level that is at least as high.
level_for_score-monotone : (a b : ℕ) → a ≤ b → rank (level_for_score a) ≤ rank (level_for_score b)
unfolding level_for_score
level_for_score-monotone a b h = ground (arith, h)

-- The risk of open ports is at most 1.
port_risk_thirds-le : (ports : List ℕ) → port_risk_thirds ports ≤ 3
unfolding port_risk_thirds
port_risk_thirds-le ports = omega arith

-- The weights add up to 1.
weights_total :
    weight source_reputation
      + weight detection_ratio
      + weight blacklist_presence
      + weight confidence
      + weight recency
      + weight frequency
      + weight geo_risk
      + weight port_risk
      + weight historical_activity
    ≡ 100
weights_total = refl

-- More reputable sources never lower the signal, and it is at most 1.
source_reputation_monotone :
    (a b : ℕ)
    → a ≤ b
    → (source_reputation_quarters a ≤ source_reputation_quarters b)
      × (source_reputation_quarters b ≤ 4)
unfolding source_reputation_quarters
source_reputation_monotone a b h = (omega (arith, h), omega arith)
