-- ===== src/Collectors/Factory/Laws.antt =====
-- How much a collector hands over, and where it comes from.
use cyber_threat_intelligenc.Prelude.{
  ℕ, ◌≤◌, ◌≡◌, refl, inl, inr, false, String, Option, none, some, List, length, length-take, arith,
  Bool-cases,
}
use cyber_threat_intelligenc.Prelude.Dict.{lookup}
use cyber_threat_intelligenc.Iocs.Service.Batch.{CollectedIndicator}
use cyber_threat_intelligenc.Collectors.Providers.{
  collect_urlhaus, collect_malwarebazaar, collect_cisa_kev, collect_otx, collect_rss,
}
use cyber_threat_intelligenc.Collectors.Samples.{samples, samples_of, sample_for}
use cyber_threat_intelligenc.Collectors.Providers.Bounds.{
  IsWithin, collect_abuseipdb-IsWithin, collect_urlhaus-bound, collect_malwarebazaar-bound,
  collect_cisa_kev-bound, collect_otx-bound, collect_rss-bound,
}
use cyber_threat_intelligenc.Collectors.Factory.{
  Source, abuseipdb, urlhaus, malwarebazaar, otx, cisa_kev, rss, name_of, CollectorPolicy,
  Collector, Answers, with_answer, abuse_answer, is_live, collect_live, or_samples, collect,
}

sample_for-bound : (name : String) (limit : ℕ) → length (sample_for name limit) ≤ limit
unfolding sample_for
sample_for-bound name limit = omega (arith, length-take limit (samples_of (lookup name samples)))

answered :
    {A : Type 0} (f : A → List CollectedIndicator) (limit : ℕ) (o : Option A)
    → ((a : A) → length (f a) ≤ limit)
    → IsWithin limit (with_answer f o)
answered f limit none bound = tt
answered f limit (some a) bound = bound a

module _ (policy : CollectorPolicy) where
  live-IsWithin :
      (s : Source) (limit : ℕ) (answers : Answers)
      → 1 ≤ limit
      → IsWithin limit (collect_live policy s limit answers)
  unfolding collect_live
  live-IsWithin abuseipdb limit answers positive =
      elim answers.abuse as (λ a. IsWithin limit (abuse_answer limit a)) [
        | none ↦ tt
        | some rows ↦ collect_abuseipdb-IsWithin limit rows
      ]
  live-IsWithin urlhaus limit answers positive =
      answered (collect_urlhaus limit) limit answers.urls
        (λ a. collect_urlhaus-bound limit a positive)
  live-IsWithin malwarebazaar limit answers positive =
      answered (collect_malwarebazaar limit) limit answers.samples
        (collect_malwarebazaar-bound limit)
  live-IsWithin otx limit answers positive =
      answered (collect_otx limit) limit answers.pulses (λ a. collect_otx-bound limit a positive)
  live-IsWithin cisa_kev limit answers positive =
      answered (collect_cisa_kev limit) limit answers.vulnerabilities (collect_cisa_kev-bound limit)
  live-IsWithin rss limit answers positive =
      answered (collect_rss limit) limit answers.feeds (λ a. collect_rss-bound limit a positive)

  or_samples-bound :
      (s : Source) (limit : ℕ) (o : Option (List CollectedIndicator))
      → IsWithin limit o
      → length (or_samples policy s limit o) ≤ limit
  unfolding or_samples
  or_samples-bound s limit none within = sample_for-bound (name_of s) limit
  or_samples-bound s limit (some inds) within = within

  -- A collector hands over at most `limit` indicators, whatever the provider answers, and with live
  -- collection off the bundled samples, whatever keys are configured.
  pub collect_bounds :
      (c : Collector) (limit : ℕ) (answers : Answers)
      → 1 ≤ limit
      → (length (collect policy c limit answers) ≤ limit)
        × (policy.enable_live_collectors ≡ false
            → collect policy c limit answers ≡ sample_for (name_of c.source) limit)
  unfolding collect is_live or_samples
  collect_bounds c limit answers positive = (
    elim (Bool-cases (is_live policy c)) [
      | inl live ↦ rw live (
          or_samples-bound c.source limit (collect_live policy c.source limit answers)
            (live-IsWithin c.source limit answers positive))
      | inr off ↦ rw off (sample_for-bound (name_of c.source) limit)
    ],
    λ off. rw off refl,
  )
