-- ===== src/Prelude/Sort.antt =====
-- `sorted` and `set` of texts, and decimal numerals.
use Prim.Native.Nat.{ℕ, zero, suc, ◌+◌, ◌/◌, ◌%◌, compare, Ordering}
use mathlib.Core.List.{List, [], ◌∷◌, ◌++◌}
use cyber_threat_intelligenc.Prelude.Tests.{ltb, if◌then◌else◌}
use cyber_threat_intelligenc.Prelude.Text.{Text}

-- How two texts compare, code point by code point.
unfoldable pub compare_texts : Text → Text → Ordering
compare_texts [] [] = Ordering.eq
compare_texts [] (d ∷ t) = Ordering.lt
compare_texts (c ∷ s) [] = Ordering.gt
compare_texts (c ∷ s) (d ∷ t) =
    let rest = compare_texts s t in
    elim (compare c d) [
      | Ordering.lt ↦ Ordering.lt
      | Ordering.eq ↦ rest
      | Ordering.gt ↦ Ordering.gt
    ]

-- A text put into an ascending list, where it may already be.
unfoldable pub insert_sorted : Text → List Text → List Text
unfolding compare_texts
insert_sorted s [] = s ∷ []
insert_sorted s (t ∷ ts) =
    let rest = insert_sorted s ts in
    elim (compare_texts s t) [
      | Ordering.lt ↦ s ∷ t ∷ ts
      | Ordering.eq ↦ t ∷ ts
      | Ordering.gt ↦ t ∷ rest
    ]

-- `sorted(set(ts))`
unfoldable pub sorted_set : List Text → List Text
unfolding insert_sorted
sorted_set [] = []
sorted_set (t ∷ ts) = insert_sorted t (sorted_set ts)

-- `sorted(ts)`, which keeps repetitions.
unfoldable pub insert_repeated : Text → List Text → List Text
unfolding compare_texts
insert_repeated s [] = s ∷ []
insert_repeated s (t ∷ ts) =
    let rest = insert_repeated s ts in
    elim (compare_texts s t) [ Ordering.gt ↦ t ∷ rest | _ ↦ s ∷ t ∷ ts ]

unfoldable pub sorted : List Text → List Text
unfolding insert_repeated
sorted [] = []
sorted (t ∷ ts) = insert_repeated t (sorted ts)

decimal_from : ℕ → ℕ → Text
decimal_from zero n = []
decimal_from (suc fuel) n =
    let rest = decimal_from fuel (n / 10) in
    if ltb n 10 then (48 + n) ∷ [] else rest ++ (48 + n % 10) ∷ []

-- `str(n)`: a number has no more digits than its successor counts.
unfoldable pub decimal : ℕ → Text
unfolding decimal_from
decimal n = decimal_from (suc n) n
