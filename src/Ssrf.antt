-- ===== src/Ssrf.antt =====
-- app/core/ssrf.py. The libraries `ipaddress` and `urllib.parse` and the resolver are parameters.
pub mod Laws
use cyber_threat_intelligenc.Prelude.{
  ℕ, Bool, true, false, not, ◌&&◌, ◌||◌, Option, none, some, List, [], ◌∷◌, map, keep, any, find?,
  contains, if◌then◌else◌, ◌==◌, nat_eq,
}
use cyber_threat_intelligenc.Prelude.Text.{Text, text_eq, codes, lower, ends_with}

pub record IpAddress : Type 0 where
  pub is_global : Bool
  pub is_private : Bool
  pub is_loopback : Bool
  pub is_link_local : Bool
  pub is_multicast : Bool
  pub is_reserved : Bool
  pub is_unspecified : Bool

-- Reading `port` of a split URL gives nothing, a number, or raises `ValueError`.
pub data Port : Type 0 where
  absent bad_port : Port
  number : ℕ → Port

pub record UrlParts : Type 0 where
  pub scheme : Text
  pub hostname : Option Text
  pub port : Port

-- `none` is a `ValueError` of the first two and a `gaierror` of the last.
pub record Network : Type 0 where
  pub ip_address : Text → Option IpAddress
  pub urlsplit : Text → Option UrlParts
  pub getaddrinfo : Text → ℕ → Option (List Text)

-- The reasons of an `SSRFError`, and the `ValueError` that `validate` lets through.
pub data Refusal : Type 0 where
  unresolved scheme_refused no_host not_allowed literal_not_public resolves_private value_error :
      Refusal

pub data Checked (A : Type 0) : Type 0 where
  safe : A → Checked A
  refused : Refusal → Checked A

pub record SafeTarget : Type 0 where
  pub url : Text
  pub host : Text
  pub port : ℕ
  pub resolved_ips : List Text

-- `h.lstrip(".")`
unfoldable pub strip_dots : Text → Text
strip_dots [] = []
strip_dots (c ∷ s) = if c == 46 then strip_dots s else c ∷ s

-- `_allowed`, as `__init__` makes it.
unfoldable pub allow_list : List Text → List Text
unfolding strip_dots lower
allow_list allowed_hosts =
    map (λ h. strip_dots (lower h)) (keep (λ (h : Text). not (h == [])) allowed_hosts)

unfoldable pub host_allowed : List Text → Text → Bool
host_allowed [] host = true
host_allowed (a ∷ allowed) host =
    any (λ a. lower host == a || ends_with (lower host) (46 ∷ a)) (a ∷ allowed)

abbrev allowed_scheme : Text → Bool
allowed_scheme scheme = contains (codes "http" ∷ codes "https" ∷ []) (lower scheme)

-- `parts.port or (443 if parts.scheme == "https" else 80)`
abbrev pub port_or_default : Port → Text → Option ℕ
port_or_default bad_port scheme = none
port_or_default absent scheme = some (if scheme == codes "https" then 443 else 80)
port_or_default (number n) scheme =
    some (if n == 0 then (if scheme == codes "https" then 443 else 80) else n)

module _ (N : Network) where
  public_address : Option IpAddress → Bool
  public_address none = false
  public_address (some a) =
      a.is_global
      && not (
          a.is_private
          || (a.is_loopback
              || (a.is_link_local || (a.is_multicast || (a.is_reserved || a.is_unspecified)))))

  unfoldable pub ip_is_public : Text → Bool
  unfolding public_address
  ip_is_public ip = public_address (N.ip_address ip)

  -- The last part of `validate`: every resolved address must be public.
  abbrev pub resolved_target : Text → Text → ℕ → Option (List Text) → Checked SafeTarget
  resolved_target url host port none = refused unresolved
  resolved_target url host port (some ips) = elim (find? (λ ip. not (ip_is_public ip)) ips) [
    | some ip ↦ refused resolves_private
    | none ↦ safe (record { url = url; host = host; port = port; resolved_ips = ips })
  ]

  abbrev pub is_literal : Option IpAddress → Bool
  is_literal none = false
  is_literal (some a) = true

  abbrev pub reach : Text → Text → Option ℕ → Checked SafeTarget
  reach url host none = refused value_error
  reach url host (some port) = resolved_target url host port (N.getaddrinfo host port)

  abbrev pub validate_host : List Text → Text → UrlParts → Text → Checked SafeTarget
  validate_host allowed url parts host =
      if host == []
      then refused no_host
      else if not (host_allowed allowed host)
      then refused not_allowed
      else if is_literal (N.ip_address host) && not (ip_is_public host)
      then refused literal_not_public
      else reach url host (port_or_default parts.port parts.scheme)

  abbrev pub validate_parts : List Text → Text → Option UrlParts → Checked SafeTarget
  validate_parts allowed url none = refused value_error
  validate_parts allowed url (some parts) =
      if not (allowed_scheme parts.scheme) then refused scheme_refused else elim parts.hostname [
        | none ↦ refused no_host
        | some host ↦ validate_host allowed url parts host
      ]

  unfoldable pub validate : List Text → Text → Checked SafeTarget
  validate allowed url = validate_parts allowed url (N.urlsplit url)

  -- `_resolve` and the filter of `resolve_public`
  unfoldable pub resolve_public : List Text → Text → Checked (List Text)
  resolve_public allowed host =
      if not (host_allowed allowed host)
      then refused not_allowed
      else elim (N.getaddrinfo host 80) [
        | none ↦ refused unresolved
        | some resolved ↦ safe (keep ip_is_public resolved)
      ]
