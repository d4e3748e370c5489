-- ===== src/Api/ClientIp.antt =====
-- `ProxyTrust` of app/api/client_ip.py. The library `ipaddress` is a parameter.
pub mod Laws
use mathlib.Core.List.{reverse}
use cyber_threat_intelligenc.Prelude.{
  ℕ, Bool, true, false, not, Option, none, some, List, [], ◌∷◌, map, keep, any, find?,
  if◌then◌else◌, ◌==◌, nat_eq,
}
use cyber_threat_intelligenc.Prelude.Text.{Text, text_eq, strip, split}

-- `none` is a `ValueError`.
pub record IpLibrary : Type 1 where
  pub Address : Type 0
  pub Network : Type 0
  pub ip_address : Text → Option Address
  pub ip_network : Text → Option Network
  pub is_in : Address → Network → Bool

pub record Request : Type 0 where
  pub path : Text
  -- `request.client.host`
  pub peer : Option Text
  -- The header `X-Forwarded-For`, empty if it was not sent.
  pub forwarded : Text

unfoldable pub hops : Text → List Text
unfolding split
hops forwarded = keep (λ (h : Text). not (h == [])) (map strip (split 44 forwarded))

module _ (I : IpLibrary) where
  -- `__init__`: what is no network is left out.
  unfoldable pub networks : List Text → List I.Network
  networks [] = []
  networks (cidr ∷ cidrs) = elim (I.ip_network cidr) [
    | none ↦ networks cidrs
    | some n ↦ n ∷ networks cidrs
  ]

  in_networks : List I.Network → Option I.Address → Bool
  in_networks trusted none = false
  in_networks trusted (some a) = any (λ n. I.is_in a n) trusted

  -- With no network nothing is trusted.
  unfoldable pub trusts : List I.Network → Text → Bool
  unfolding in_networks
  trusts trusted address =
      if address == [] then false else in_networks trusted (I.ip_address address)

  abbrev first_untrusted : List I.Network → Text → Text → Text
  first_untrusted trusted peer forwarded =
      elim (find? (λ h. not (trusts trusted h)) (reverse (hops forwarded))) [
        | none ↦ peer
        | some hop ↦ hop
      ]

  abbrev address_for : List I.Network → Text → Option Text → Option Text
  address_for trusted forwarded none = none
  address_for trusted forwarded (some peer) =
      if trusts trusted peer then some (first_untrusted trusted peer forwarded) else some peer

  unfoldable pub client_ip : List I.Network → Request → Option Text
  client_ip trusted request = address_for trusted request.forwarded request.peer
