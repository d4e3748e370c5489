-- ===== src/Api/ClientIp/Laws.antt =====
-- A client cannot choose the address that it is taken to have.
use mathlib.Core.List.{reverse, reverse-append}
use mathlib.Core.Option.{some-injective}
use cyber_threat_intelligenc.Prelude.{
  ℕ, ◌≡◌, ◌≢◌, refl, ap, sym, ◌∙◌, Bool, true, false, not, Option, none, some, List, [], ◌∷◌, ◌++◌,
  map, keep, find?, arith, ◌==◌, nat_eq, if◌then◌else◌, Bool-cases, inl, inr,
}
use cyber_threat_intelligenc.Prelude.Text.{Text, text_eq, push, split}
use cyber_threat_intelligenc.Api.ClientIp.{IpLibrary, Request, hops, trusts, client_ip, address_for}

split-cons : (sep : ℕ) (s : Text) → (w : Text) × (ws : List Text) × (split sep s ≡ w ∷ ws)
unfolding split push
split-cons sep [] = ([], [], refl)
split-cons sep (c ∷ s) = elim (Bool-cases (c == sep)) [
  | inl same ↦ rw same ([], split sep s, refl)
  | inr other ↦ let (w, ws, e) = split-cons sep s in rw (other, e) (c ∷ w, ws, refl)
]

split-append : (sep : ℕ) (s t : Text) → split sep (s ++ sep ∷ t) ≡ split sep s ++ split sep t
unfolding split push
split-append sep [] t = ground arith
split-append sep (c ∷ s) t = elim (Bool-cases (c == sep)) [
  | inl same ↦ rw same (ap (λ l. [] ∷ l) (split-append sep s t))
  | inr other ↦ let (w, ws, e) = split-cons sep s in rw (other, split-append sep s t, e) refl
]

map-append : (f : Text → Text) (xs ys : List Text) → map f (xs ++ ys) ≡ map f xs ++ map f ys
map-append f [] ys = refl
map-append f (x ∷ xs) ys = ap (λ l. f x ∷ l) (map-append f xs ys)

keep-append : (p : Text → Bool) (xs ys : List Text) → keep p (xs ++ ys) ≡ keep p xs ++ keep p ys
keep-append p [] ys = refl
keep-append p (x ∷ xs) ys = elim (Bool-cases (p x)) [
  | inl yes_x ↦ rw yes_x (ap (λ l. x ∷ l) (keep-append p xs ys))
  | inr no_x ↦ rw no_x (keep-append p xs ys)
]

find?-append :
    (p : Text → Bool) (xs ys : List Text) (v : Text)
    → find? p xs ≡ some v
    → find? p (xs ++ ys) ≡ some v
find?-append p [] ys v h = cc
find?-append p (x ∷ xs) ys v h = elim (Bool-cases (p x)) [
  | inl yes_x ↦ rw yes_x (rw yes_x at h)
  | inr no_x ↦ rw no_x (find?-append p xs ys v (rw no_x at h))
]

find?-found : (p : Text → Bool) (xs : List Text) (v : Text) → find? p xs ≡ some v → p v ≡ true
find?-found p [] v h = cc
find?-found p (x ∷ xs) v h = elim (Bool-cases (p x)) [
  | inl yes_x ↦ ap p (some-injective _ _ (sym (rw yes_x at h))) ∙ yes_x
  | inr no_x ↦ find?-found p xs v (rw no_x at h)
]

hops-append : (s t : Text) → hops (s ++ 44 ∷ t) ≡ hops s ++ hops t
unfolding hops
hops-append s t = rw (split-append 44 s t, map-append, keep-append) refl

module _ (I : IpLibrary) (trusted : List I.Network) where
  abbrev pub untrusted_hop : Text → Option Text
  untrusted_hop forwarded = find? (λ h. not (trusts I trusted h)) (reverse (hops forwarded))

  address_from : Option Text → Option Text → Option Text
  address_from none found = none
  address_from (some peer) found =
      if trusts I trusted peer
      then some (elim found [ none ↦ peer | some hop ↦ hop ])
      else some peer

  address_for-eq :
      (forwarded : Text) (peer : Option Text)
      → address_for I trusted forwarded peer ≡ address_from peer (untrusted_hop forwarded)
  unfolding address_from
  address_for-eq forwarded none = refl
  address_for-eq forwarded (some peer) = refl

  taken :
      (peer address : Text) (found : Option Text)
      → trusts I trusted peer ≡ true
      → address_from (some peer) found ≡ some address
      → address ≢ peer
      → found ≡ some address
  unfolding address_from
  taken peer address none proxy h ne = absurd (ne (some-injective _ _ (sym (rw proxy at h))))
  taken peer address (some hop) proxy h ne = rw proxy at h

  -- Whatever a client puts into `X-Forwarded-For`, it is ignored as soon as what the proxies
  -- append after it names a hop that is no trusted proxy: the address is the one that would be
  -- found without it.
  pub client_ip_unforgeable :
      (forged appended hop : Text) (r : Request)
      → untrusted_hop appended ≡ some hop
      → client_ip I trusted (record r { forwarded = forged ++ 44 ∷ appended })
        ≡ client_ip I trusted (record r { forwarded = appended })
  unfolding client_ip
  client_ip_unforgeable forged appended hop r h =
      address_for-eq (forged ++ 44 ∷ appended) r.peer
      ∙ ap (λ l. address_from r.peer (find? (λ h. not (trusts I trusted h)) (reverse l)))
          (hops-append forged appended)
      ∙ ap (address_from r.peer) (
          rw reverse-append (
            find?-append (λ h. not (trusts I trusted h)) (reverse (hops appended))
              (reverse (hops forged)) hop h
            ∙ sym h))
      ∙ sym (address_for-eq appended r.peer)

  -- An address other than the peer's own is taken only from a trusted peer, and it is the address
  -- of no trusted proxy.
  pub client_ip_untrusted :
      (peer address : Text) (r : Request)
      → r.peer ≡ some peer
      → client_ip I trusted r ≡ some address
      → address ≢ peer
      → (trusts I trusted peer ≡ true) × (trusts I trusted address ≡ false)
  unfolding client_ip
  client_ip_untrusted peer address r p h ne = elim (Bool-cases (trusts I trusted peer)) [
    | inr outside ↦ absurd (ne (some-injective _ _ (sym (rw (p, outside) at h))))
    | inl proxy ↦
        let found =
          taken peer address (untrusted_hop r.forwarded) proxy
            (sym (address_for-eq r.forwarded (some peer)) ∙ rw p at h) ne in
        (
          proxy,
          ground (
            arith,
            find?-found (λ h. not (trusts I trusted h)) (reverse (hops r.forwarded)) address found,
          ),
        )
  ]
