-- ===== src/Prelude/Dict.antt =====
-- Python dicts in insertion order. Proofs elsewhere go by the laws; tests unfold the operations.
use mathlib.Core.Path.{◌≡◌, refl}
use mathlib.Core.Bool.{Bool}
use mathlib.Core.Option.{Option, none, some}
use mathlib.Core.List.{List, [], ◌∷◌}
use native.Mathlib.Omega.{arith}
use cyber_threat_intelligenc.Prelude.Tests.{if◌then◌else◌}
use cyber_threat_intelligenc.Prelude.Equality.{Eq, ◌==◌}

abbrev pub Dict {ℓ κ} : Type ℓ → Type κ → Type (ℓ ⊔ κ)
Dict K V = List (K × V)

module _ {ℓ κ} {K : Type ℓ} {V : Type κ} ⦃e : Eq K⦄ where
  -- `d.get(k)`
  unfoldable pub lookup : K → Dict K V → Option V
  lookup k [] = none
  lookup k ((j, w) ∷ d) = if k == j then some w else lookup k d

  -- `d[k] = v`
  unfoldable pub insert : K → V → Dict K V → Dict K V
  insert k v [] = (k, v) ∷ []
  insert k v ((j, w) ∷ d) = if k == j then (k, v) ∷ d else (j, w) ∷ insert k v d

  -- `d.pop(k, None)`, `del d[k]`. Every entry of the key goes; a real dict has at most one.
  unfoldable pub erase : K → Dict K V → Dict K V
  erase k [] = []
  erase k ((j, w) ∷ d) = let rest = erase k d in if k == j then rest else (j, w) ∷ rest

  pub lookup-nil : (k : K) → lookup k [] ≡ none
  unfolding lookup
  lookup-nil k = refl

  pub lookup-insert :
      (j k : K) (v : V) (d : Dict K V)
      → lookup j (insert k v d) ≡ (if j == k then some v else lookup j d)
  unfolding insert lookup
  lookup-insert j k v [] = refl
  lookup-insert j k v (_ ∷ d) = ground (arith, lookup-insert j k v d)

  pub lookup-erase :
      (j k : K) (d : Dict K V) → lookup j (erase k d) ≡ (if j == k then none else lookup j d)
  unfolding erase lookup
  lookup-erase j k [] = ground arith
  lookup-erase j k (_ ∷ d) = ground (arith, lookup-erase j k d)

  pub ruleset dict_laws = (lookup-nil, lookup-insert, lookup-erase)

abbrev pub kept {κ} : {V : Type κ} → (V → Bool) → Option V → Option V
kept p none = none
kept p (some w) = if p w then some w else none

module _ {ℓ κ} {K : Type ℓ} {V : Type κ} ⦃e : Eq K⦄ where
  -- No key is listed twice, as in every real dict.
  abbrev pub NodupKeys : Dict K V → Type κ
  NodupKeys [] = Unit
  NodupKeys ((k, _) ∷ d) = (lookup k d ≡ none) × NodupKeys d

  pub insert-NodupKeys : (k : K) (v : V) (d : Dict K V) → NodupKeys d → NodupKeys (insert k v d)
  unfolding insert
  insert-NodupKeys k v [] _ = (lookup-nil k, tt)
  insert-NodupKeys k v ((j, _) ∷ d) (fresh, u) =
      ground (arith, insert-NodupKeys k v d u, lookup-insert j k v d)

  pub erase-NodupKeys : (k : K) (d : Dict K V) → NodupKeys d → NodupKeys (erase k d)
  unfolding erase
  erase-NodupKeys k [] _ = tt
  erase-NodupKeys k ((j, _) ∷ d) (fresh, u) =
      ground (arith, erase-NodupKeys k d u, lookup-erase j k d)

  -- Deletes the entries whose value fails the test.
  unfoldable pub keep_values : (V → Bool) → Dict K V → Dict K V
  keep_values p [] = []
  keep_values p ((j, w) ∷ d) = let rest = keep_values p d in if p w then (j, w) ∷ rest else rest

  pub lookup-keep_values :
      (p : V → Bool) (j : K) (d : Dict K V)
      → NodupKeys d
      → lookup j (keep_values p d) ≡ kept p (lookup j d)
  unfolding lookup keep_values
  lookup-keep_values p j [] _ = refl
  lookup-keep_values p j ((k, w) ∷ d) (fresh, u) = ground (arith, lookup-keep_values p j d u)

  pub keep_values-NodupKeys :
      (p : V → Bool) (d : Dict K V) → NodupKeys d → NodupKeys (keep_values p d)
  unfolding keep_values
  keep_values-NodupKeys p [] _ = tt
  keep_values-NodupKeys p ((k, w) ∷ d) (fresh, u) =
      ground (arith, keep_values-NodupKeys p d u, lookup-keep_values p k d u)
