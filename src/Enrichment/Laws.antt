-- ===== src/Enrichment/Laws.antt =====
-- When enrichment asks the resolver, and what it reports of the answer.
use cyber_threat_intelligenc.Prelude.{
  ◌≡◌, ◌⊎◌, refl, inl, inr, true, false, Option, none, some, List, All, Bool-cases,
}
use cyber_threat_intelligenc.Prelude.Text.{Text}
use cyber_threat_intelligenc.Errors.{Attempt, returned, thrown}
use cyber_threat_intelligenc.Ssrf.{
  Network, Checked, safe, refused, host_allowed, resolve_public, ip_is_public,
}
use cyber_threat_intelligenc.Ssrf.Laws.{resolve_public_sound}
use cyber_threat_intelligenc.Indicators.{IocType}
use cyber_threat_intelligenc.Indicators.Classify.{Parsers, extract_host}
use cyber_threat_intelligenc.Enrichment.{
  Hashing, EnrichmentPolicy, answered, enrich_dns, dns_facet, enrich_host, enrich,
}

module _ (H : Hashing) (policy : EnrichmentPolicy) where
  -- Live collection is off, or the host is outside the operator's list.
  abbrev pub IsOffLimits : Text → Type 0
  IsOffLimits host =
      (policy.enable_live_collectors ≡ false)
      ⊎ (host_allowed policy.outbound_allowed_hosts host ≡ false)

  dns-same :
      (N M : Network) (host : Text)
      → IsOffLimits host
      → dns_facet H N policy host ≡ dns_facet H M policy host
  unfolding dns_facet enrich_dns
  dns-same N M host (inl off) = rw off refl
  dns-same N M host (inr outside) = rw outside refl

  host-same :
      (N M : Network) (value : Text) (t : IocType) (a : Attempt (Option Text))
      → ((host : Text) → a ≡ returned (some host) → IsOffLimits host)
      → enrich_host H N policy value t a ≡ enrich_host H M policy value t a
  unfolding enrich_host
  host-same N M value t (thrown e) off = refl
  host-same N M value t (returned none) off = refl
  host-same N M value t (returned (some host)) off = rw (dns-same N M host (off host refl)) refl

  -- Enrichment does not depend on what the resolver would answer when live collection is off or
  -- the indicator's host is not allowed: nothing of it comes from the network.
  pub enrich_offline :
      (N M : Network) (P : Parsers) (t : IocType) (value : Text)
      → ((host : Text) → extract_host P value t ≡ returned (some host) → IsOffLimits host)
      → enrich H N policy P t value ≡ enrich H M policy P t value
  unfolding enrich
  enrich_offline N M P t value off = host-same N M value t (extract_host P value t) off

  answered-IsPublic :
      (N : Network) (host : Text) (c : Checked (List Text))
      → resolve_public N policy.outbound_allowed_hosts host ≡ c
      → All (λ ip. ip_is_public N ip ≡ true) (answered H N policy c).resolved
  unfolding answered
  answered-IsPublic N host (refused reason) e = tt
  answered-IsPublic N host (safe ips) e =
      (resolve_public_sound N policy.outbound_allowed_hosts host ips e).1

  -- Every address that the DNS facet reports is public.
  pub dns_facet-IsPublic :
      (N : Network) (host : Text)
      → All (λ ip. ip_is_public N ip ≡ true) (dns_facet H N policy host).resolved
  unfolding dns_facet enrich_dns
  dns_facet-IsPublic N host = elim (Bool-cases (host_allowed policy.outbound_allowed_hosts host)) [
    | inr outside ↦ rw outside tt
    | inl inside ↦ elim (Bool-cases policy.enable_live_collectors) [
      | inr off ↦ rw (inside, off) tt
      | inl live ↦
          rw (inside, live)
            (answered-IsPublic N host (resolve_public N policy.outbound_allowed_hosts host) refl)
    ]
  ]
