-- ===== src/Events/Laws.antt =====
-- What a slow subscriber keeps, and what a client sees.
use mathlib.Core.Option
use mathlib.Core.Path.{subst}
use mathlib.Core.List.{append-nil, append_assoc}
use cyber_threat_intelligenc.Prelude.{
  Bool-cases, inl, inr, leb, ℕ, suc, ◌+◌, ◌-◌, ◌≡◌, refl, ap, true, false, List, [], ◌∷◌, ◌++◌,
  arith, length, drop, ◌≤◌, ◌&&◌, All, length-append, if◌then◌else◌, nat_eq, ltb,
}
use cyber_threat_intelligenc.Prelude.Dict.{Dict, lookup}
use cyber_threat_intelligenc.Events.{
  is_full, offer, offer_all, Frame, connected, heartbeat, event, Turn, published, asked, next_frame,
  serve, stream,
}

drop-eq : {A : Type 0} (k j : ℕ) (x : A) (l : List A) → k ≡ suc j → drop k (x ∷ l) ≡ drop j l
drop-eq k j x l e = ap (λ n. drop n (x ∷ l)) e

module _ {A : Type 0} where
  offer-bounded :
      (m : ℕ) (q : List A) (e : A)
      → ltb 0 m ≡ true
      → offer m q e ≡ drop (length q + 1 - m) (q ++ e ∷ [])
  unfolding offer
  offer-bounded m [] e positive =
      let k : 0 + 1 - m ≡ 0 = ground (arith, positive) in
      let room : leb m 0 ≡ false = ground (arith, positive) in rw (k, room, positive) refl
  offer-bounded m (x ∷ q) e positive = elim (Bool-cases (leb m (suc (length q)))) [
    | inl full ↦
        let k : suc (length q) + 1 - m ≡ suc (length q + 1 - m) = ground (arith, full) in
        rw (full, positive, k) (offer-bounded m q e positive)
    | inr room ↦
        let k : suc (length q) + 1 - m ≡ 0 = ground (arith, room) in rw (room, positive, k) refl
  ]

  offer-unbounded : (m : ℕ) (q : List A) (e : A) → ltb 0 m ≡ false → offer m q e ≡ q ++ e ∷ []
  unfolding offer
  offer-unbounded m [] e none_set = rw none_set refl
  offer-unbounded m (x ∷ q) e none_set = rw none_set refl

  -- `_offer` ends, never loses the new event and never exceeds the bound: the queue becomes the
  -- newest events, at most as many as the bound, in order; with no bound nothing is dropped.
  pub offer-eq-newest :
      (maxsize : ℕ) (q : List A) (e : A)
      → offer maxsize q e
        ≡ (if ltb 0 maxsize then drop (length q + 1 - maxsize) (q ++ e ∷ []) else q ++ e ∷ [])
  offer-eq-newest maxsize q e = elim (Bool-cases (ltb 0 maxsize)) [
    | inl positive ↦ rw positive (offer-bounded maxsize q e positive)
    | inr none_set ↦ rw none_set (offer-unbounded maxsize q e none_set)
  ]

  -- A new event goes to every subscriber's queue and to no other, each by `_offer`.
  lookup-offer_all :
      (size : ℕ) (e : A) (id : ℕ) (subs : Dict ℕ (List A))
      → lookup id (offer_all size e subs) ≡ Option.map (λ q. offer size q e) (lookup id subs)
  unfolding offer_all lookup
  lookup-offer_all size e id [] = refl
  lookup-offer_all size e id ((j, q) ∷ subs) = ground (arith, lookup-offer_all size e id subs)

-- The events among the frames.
abbrev pub events : {A : Type 0} → List (Frame A) → List A
events [] = []
events (event e ∷ fs) = e ∷ events fs
events (connected ∷ fs) = events fs
events (heartbeat ∷ fs) = events fs

-- How many of `n` events a queue of the size keeps: a size of 0 is no bound.
abbrev pub kept_of : ℕ → ℕ → ℕ
kept_of size n = if ltb 0 size && ltb size n then size else n

-- A frame behind the first.
abbrev pub IsLater : {A : Type 0} → Frame A → Type 0
IsLater connected = ⊥
IsLater heartbeat = Unit
IsLater (event e) = Unit

-- The events that are published.
abbrev pub publications : {A : Type 0} → List (Turn A) → List A
publications [] = []
publications (published e ∷ ts) = e ∷ publications ts
publications (asked ∷ ts) = publications ts

-- The first list is the second with some members left out.
pub data IsSubsequence {A : Type 0} : List A → List A → Type 0 where
  nil : IsSubsequence [] []
  keep : (x : A) {xs ys : List A} → IsSubsequence xs ys → IsSubsequence (x ∷ xs) (x ∷ ys)
  skip : (x : A) {xs ys : List A} → IsSubsequence xs ys → IsSubsequence xs (x ∷ ys)

IsSubsequence-trans :
    {A : Type 0} {zs ys : List A}
    → IsSubsequence ys zs
    → (xs : List A) → IsSubsequence xs ys
    → IsSubsequence xs zs
IsSubsequence-trans nil xs s = s
IsSubsequence-trans (skip y t) xs s = skip y (IsSubsequence-trans t xs s)
IsSubsequence-trans (keep y t) _ (keep _ {xs = xs} s) = keep y (IsSubsequence-trans t xs s)
IsSubsequence-trans (keep y t) xs (skip _ s) = skip y (IsSubsequence-trans t xs s)

module _ {A : Type 0} where
  IsSubsequence-refl : (xs : List A) → IsSubsequence xs xs
  IsSubsequence-refl [] = nil
  IsSubsequence-refl (x ∷ xs) = keep x (IsSubsequence-refl xs)

  IsSubsequence-append :
      (xs ys zs : List A) → IsSubsequence xs ys → IsSubsequence (xs ++ zs) (ys ++ zs)
  IsSubsequence-append _ _ zs nil = IsSubsequence-refl zs
  IsSubsequence-append _ _ zs (keep x s) = keep x (IsSubsequence-append _ _ zs s)
  IsSubsequence-append _ _ zs (skip x s) = skip x (IsSubsequence-append _ _ zs s)

  nothing-IsSubsequence : (xs : List A) → IsSubsequence [] xs
  nothing-IsSubsequence [] = nil
  nothing-IsSubsequence (x ∷ xs) = skip x (nothing-IsSubsequence xs)

  offer-IsSubsequence :
      (size : ℕ) (q : List A) (e : A) → IsSubsequence (offer size q e) (q ++ e ∷ [])
  unfolding offer
  offer-IsSubsequence size [] e = elim (Bool-cases (is_full size 0)) [
    | inl full ↦ rw full (nothing-IsSubsequence (e ∷ []))
    | inr room ↦ rw room (IsSubsequence-refl (e ∷ []))
  ]
  offer-IsSubsequence size (x ∷ q) e = elim (Bool-cases (is_full size (length (x ∷ q)))) [
    | inl full ↦ rw full (skip x (offer-IsSubsequence size q e))
    | inr room ↦ rw room (IsSubsequence-refl ((x ∷ q) ++ e ∷ []))
  ]

  serve-ordered :
      (size : ℕ) (ts : List (Turn A)) (q : List A)
      → IsSubsequence (events (serve size ts q).0 ++ (serve size ts q).1) (q ++ publications ts)
  unfolding serve next_frame
  serve-ordered size [] q = rw (append-nil) (IsSubsequence-refl q)
  serve-ordered size (published e ∷ ts) q =
      IsSubsequence-trans
        (subst (λ l. IsSubsequence (offer size q e ++ publications ts) l)
          (append_assoc q (e ∷ []) (publications ts))
          (IsSubsequence-append _ _ (publications ts) (offer-IsSubsequence size q e)))
        _ (serve-ordered size ts (offer size q e))
  serve-ordered size (asked ∷ ts) [] = serve-ordered size ts []
  serve-ordered size (asked ∷ ts) (x ∷ q) = keep x (serve-ordered size ts q)

  length-offer :
      (size : ℕ) (q : List A) (e : A) → length (offer size q e) ≡ kept_of size (length q + 1)
  unfolding offer
  length-offer size [] e = ground arith
  length-offer size (x ∷ q) e =
      let appended : length (q ++ e ∷ []) ≡ length q + 1 = length-append q (e ∷ []) in
      ground (arith, length-offer size q e, appended)

  serve-keeps :
      (size : ℕ) (ts : List (Turn A)) (q : List A)
      → kept_of size (length q + length (publications ts))
        ≤ length (events (serve size ts q).0) + length (serve size ts q).1
  unfolding serve next_frame
  serve-keeps size [] q = ground arith
  serve-keeps size (published e ∷ ts) q =
      ground (arith, length-offer size q e, serve-keeps size ts (offer size q e))
  serve-keeps size (asked ∷ ts) [] = serve-keeps size ts []
  serve-keeps size (asked ∷ ts) (x ∷ q) = ground (arith, serve-keeps size ts q)

  serve-unconnected : (size : ℕ) (ts : List (Turn A)) (q : List A) → All IsLater (serve size ts q).0
  unfolding serve next_frame
  serve-unconnected size [] q = tt
  serve-unconnected size (published e ∷ ts) q = serve-unconnected size ts (offer size q e)
  serve-unconnected size (asked ∷ ts) [] = (tt, serve-unconnected size ts [])
  serve-unconnected size (asked ∷ ts) (x ∷ q) = (tt, serve-unconnected size ts q)

  -- A client sees `: connected` once and first, then heartbeats and events. The events that it sees
  -- and those that still wait for it are publications in the order they were published, none twice
  -- and none invented. They are all of the publications if the queue has no bound or these are at
  -- most as many as its bound, and otherwise at least as many as the bound.
  pub stream-ordered :
      (size : ℕ) (ts : List (Turn A))
      → (frames : List (Frame A)) × ((stream size ts).0 ≡ connected ∷ frames)
        × All IsLater frames
        × IsSubsequence (events frames ++ (stream size ts).1) (publications ts)
        × (kept_of size (length (publications ts))
            ≤ length (events frames) + length (stream size ts).1)
  unfolding stream
  stream-ordered size ts = (
    (serve size ts []).0,
    refl,
    serve-unconnected size ts [],
    serve-ordered size ts [],
    from_empty (serve-keeps size ts []),
  )
    where
      from_empty :
          {m : ℕ}
          → kept_of size (0 + length (publications ts)) ≤ m
          → kept_of size (length (publications ts)) ≤ m
      from_empty h = ground (arith, h)
