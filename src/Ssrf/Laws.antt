-- ===== src/Ssrf/Laws.antt =====
-- What an accepted destination guarantees.
use cyber_threat_intelligenc.Prelude.{
  ℕ, ◌≡◌, refl, Bool, true, false, not, Option, none, some, List, [], ◌∷◌, keep, find?, All, arith,
  ◌&&◌, Option-cases, Bool-cases, inl, inr, ◌==◌,
}
use cyber_threat_intelligenc.Prelude.Text.{Text, text_eq}
use cyber_threat_intelligenc.Ssrf.{
  Network, UrlParts, SafeTarget, safe, host_allowed, allowed_scheme, ip_is_public, validate,
  validate_parts, validate_host, resolved_target, reach, resolve_public, port_or_default,
  is_literal,
}

-- A search that finds nothing.
find?-none :
    {A : Type 0} (p : A → Bool) (xs : List A)
    → find? (λ x. not (p x)) xs ≡ none
    → All (λ x. p x ≡ true) xs
find?-none p [] h = tt
find?-none p (x ∷ xs) h = elim (Bool-cases (p x)) [
  | inl yes_p ↦ (yes_p, find?-none p xs (ground (arith, h, yes_p)))
  | inr no_p ↦ absurd (ground (arith, h, no_p))
]

keep-All : {A : Type 0} (p : A → Bool) (xs : List A) → All (λ x. p x ≡ true) (keep p xs)
keep-All p [] = tt
keep-All p (x ∷ xs) = elim (Bool-cases (p x)) [
  | inl yes_p ↦ rw yes_p (yes_p, keep-All p xs)
  | inr no_p ↦ rw no_p (keep-All p xs)
]

module _ (N : Network) where
  abbrev pub IsPublic : List Text → Type 0
  IsPublic = All (λ ip. ip_is_public N ip ≡ true)

  abbrev pub IsSafe : List Text → Text → UrlParts → SafeTarget → Type 0
  IsSafe allowed url parts t =
      (allowed_scheme parts.scheme ≡ true)
      × (parts.hostname ≡ some t.host)
      × (host_allowed allowed t.host ≡ true)
      × ((is_literal N (N.ip_address t.host) && not (ip_is_public N t.host)) ≡ false)
      × (port_or_default parts.port parts.scheme ≡ some t.port)
      × (N.getaddrinfo t.host t.port ≡ some t.resolved_ips)
      × IsPublic t.resolved_ips
      × (t.url ≡ url)

  resolved_target-safe :
      (url host : Text) (port : ℕ) (answer : Option (List Text)) (t : SafeTarget)
      → resolved_target N url host port answer ≡ safe t
      → (ips : List Text) × (answer ≡ some ips)
        × IsPublic ips
        × (t ≡ record { url = url; host = host; port = port; resolved_ips = ips })
  resolved_target-safe url host port none t h = cc
  resolved_target-safe url host port (some ips) t h =
      elim (Option-cases (find? (λ ip. not (ip_is_public N ip)) ips)) [
        | inl all_public ↦
            (ips, refl, find?-none (ip_is_public N) ips all_public, ground (arith, all_public, h))
        | inr (ip, private) ↦ absurd (ground (arith, private, h))
      ]

  reach-safe :
      (url host : Text) (p : Option ℕ) (t : SafeTarget)
      → reach N url host p ≡ safe t
      → (t.host ≡ host)
        × (t.url ≡ url)
        × (p ≡ some t.port)
        × (N.getaddrinfo t.host t.port ≡ some t.resolved_ips)
        × IsPublic t.resolved_ips
  reach-safe url host none t h = cc
  reach-safe url host (some p) t h =
      let (ips, answer, public, same) =
        resolved_target-safe url host p (N.getaddrinfo host p) t h in
      rw same (refl, refl, refl, answer, public)

  validate_host-safe :
      (allowed : List Text) (url : Text) (parts : UrlParts) (host : Text) (t : SafeTarget)
      → validate_host N allowed url parts host ≡ safe t
      → (host_allowed allowed host ≡ true)
        × ((is_literal N (N.ip_address host) && not (ip_is_public N host)) ≡ false)
        × (reach N url host (port_or_default parts.port parts.scheme) ≡ safe t)
  validate_host-safe allowed url parts host t h = elim (Bool-cases (host == [])) [
    | inl empty ↦ absurd (cc (rw empty at h))
    | inr named ↦ elim (Bool-cases (host_allowed allowed host)) [
      | inr outside ↦ absurd (cc (rw (named, outside) at h))
      | inl inside ↦
          elim (Bool-cases (is_literal N (N.ip_address host) && not (ip_is_public N host))) [
            | inl private ↦ absurd (cc (rw (named, inside, private) at h))
            | inr fine ↦ (inside, fine, rw (named, inside, fine) at h)
          ]
    ]
  ]

  validate_parts-safe :
      (allowed : List Text) (url : Text) (split : Option UrlParts) (t : SafeTarget)
      → validate_parts N allowed url split ≡ safe t
      → (parts : UrlParts) × (split ≡ some parts) × IsSafe allowed url parts t
  validate_parts-safe allowed url none t h = cc
  validate_parts-safe allowed url (some parts) t h =
      elim (Bool-cases (allowed_scheme parts.scheme)) [
        | inr other ↦ absurd (cc (rw other at h))
        | inl web ↦ elim (Option-cases parts.hostname) [
          | inl nothing ↦ absurd (cc (rw (web, nothing) at h))
          | inr (host, named) ↦
              let (inside, fine, reached) =
                validate_host-safe allowed url parts host t (rw (web, named) at h) in
              let (same, own, port, answer, public) =
                reach-safe url host (port_or_default parts.port parts.scheme) t reached in
              (
                parts,
                refl,
                (web, rw same named, rw same inside, rw same fine, port, answer, public, own),
              )
        ]
      ]

  -- A URL that `validate` accepts splits into an http or https scheme and a host inside the
  -- allow-list that is no private address itself, the host resolves, and every address it resolved to is public: these addresses are
  -- the ones that the target carries.
  pub validate_sound :
      (allowed : List Text) (url : Text) (t : SafeTarget)
      → validate N allowed url ≡ safe t
      → (parts : UrlParts) × (N.urlsplit url ≡ some parts) × IsSafe allowed url parts t
  unfolding validate
  validate_sound allowed url t h = validate_parts-safe allowed url (N.urlsplit url) t h

  -- What `resolve_public` hands back is public, and of a host inside the allow-list.
  pub resolve_public_sound :
      (allowed : List Text) (host : Text) (ips : List Text)
      → resolve_public N allowed host ≡ safe ips
      → (host_allowed allowed host ≡ true)
        × IsPublic ips
        × ((resolved : List Text) × (N.getaddrinfo host 80 ≡ some resolved)
            × (ips ≡ keep (ip_is_public N) resolved))
  unfolding resolve_public
  resolve_public_sound allowed host ips h = elim (Bool-cases (host_allowed allowed host)) [
    | inr no_host ↦ absurd (cc (rw no_host at h))
    | inl yes_host ↦ elim (Option-cases (N.getaddrinfo host 80)) [
      | inl nothing ↦ absurd (cc (rw (yes_host, nothing) at h))
      | inr (resolved, e) ↦
          let same : ips ≡ keep (ip_is_public N) resolved = ground (arith, yes_host, e, h) in
          (yes_host, rw same (keep-All (ip_is_public N) resolved), (resolved, e, same))
    ]
  ]
