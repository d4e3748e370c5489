-- ===== src/Correlation/Laws.antt =====
-- One edge for each relation, with the confidence that was given last.
use cyber_threat_intelligenc.Prelude.{
  ◌≡◌, refl, true, false, ◌&&◌, String, string_eq, Option, none, some, [], ◌∷◌, ◌++◌, map, find?,
  All, arith, if◌then◌else◌, ◌==◌, nat_eq, Option-cases, Bool-cases, inl, inr,
}
use cyber_threat_intelligenc.Prelude.Text.{Text}
use cyber_threat_intelligenc.Correlation.{
  CorrelationEdge, Edges, is_edge, upsert_edge, make_ref, parse_ref,
}

-- The type of an indicator holds no colon.
abbrev pub HasNoColon : Text → Type 0
HasNoColon s = All (λ c. (c == 58) ≡ false) s

-- A reference gives back the type and the value it was made from, whatever colons are in the value.
pub parse_ref-make_ref :
    (ioc_type value : Text)
    → HasNoColon ioc_type
    → parse_ref (make_ref ioc_type value) ≡ (ioc_type, value)
unfolding parse_ref make_ref
parse_ref-make_ref [] value h = ground arith
parse_ref-make_ref (c ∷ s) value (colon, h) =
    let rest = parse_ref-make_ref s value h in rw (colon, rest) refl

-- Two relations that differ in an end or in their kind.
abbrev pub Differ : String → String → String → String → String → String → Type 0
Differ s t r s' t' r' = (s == s' && (t == t' && r == r')) ≡ false

module _ {A : Type 0} where
  -- The confidence that is stored for a relation.
  abbrev pub confidence_of : String → String → String → Edges A → Option A
  confidence_of s t r [] = none
  confidence_of s t r (e ∷ es) =
      let rest = confidence_of s t r es in if is_edge s t r e then some e.confidence else rest

  abbrev updated : String → String → String → A → Edges A → Edges A
  updated s t r c =
      map (λ (e : CorrelationEdge A). if is_edge s t r e then record e { confidence = c } else e)

  is_edge-other :
      (s t r s' t' r' : String) (e : CorrelationEdge A)
      → Differ s t r s' t' r'
      → is_edge s t r e ≡ true
      → is_edge s' t' r' e ≡ false
  is_edge-other s t r s' t' r' e ne h = ground (arith, ne, h)

  updated-own :
      (s t r : String) (c : A) (e : CorrelationEdge A) (es : Edges A)
      → find? (is_edge s t r) es ≡ some e
      → confidence_of s t r (updated s t r c es) ≡ some c
  updated-own s t r c e [] h = cc
  updated-own s t r c e (f ∷ es) h = elim (Bool-cases (is_edge s t r f)) [
    | inl found ↦ rw (found, found) refl
    | inr other ↦ rw (other, other) (updated-own s t r c e es (rw other at h))
  ]

  updated-other :
      (s t r s' t' r' : String) (c : A) (es : Edges A)
      → Differ s t r s' t' r'
      → confidence_of s' t' r' (updated s t r c es) ≡ confidence_of s' t' r' es
  updated-other s t r s' t' r' c [] ne = refl
  updated-other s t r s' t' r' c (f ∷ es) ne = elim (Bool-cases (is_edge s t r f)) [
    | inl found ↦
        let other = is_edge-other s t r s' t' r' f ne found in
        rw (found, other) (updated-other s t r s' t' r' c es ne)
    | inr passed ↦ rw (passed, updated-other s t r s' t' r' c es ne) refl
  ]

  added-own :
      (s t r : String) (f : CorrelationEdge A) (es : Edges A)
      → is_edge s t r f ≡ true
      → find? (is_edge s t r) es ≡ none
      → confidence_of s t r (es ++ f ∷ []) ≡ some f.confidence
  added-own s t r f [] own h = rw own refl
  added-own s t r f (g ∷ gs) own h = elim (Bool-cases (is_edge s t r g)) [
    | inl found ↦ absurd (cc (rw found at h))
    | inr other ↦ rw other (added-own s t r f gs own (rw other at h))
  ]

  added-other :
      (s t r : String) (f : CorrelationEdge A) (es : Edges A)
      → is_edge s t r f ≡ false
      → confidence_of s t r (es ++ f ∷ []) ≡ confidence_of s t r es
  added-other s t r f [] other = rw other refl
  added-other s t r f (g ∷ gs) other = rw (added-other s t r f gs other) refl

  -- After `upsert_edge` the relation has the confidence that was given, whether it was stored before
  -- or not, and every other relation has the confidence that it had.
  pub upsert_edge-confidence_of :
      (id s t r s' t' r' source : String) (c : A) (edges : Edges A)
      → Differ s t r s' t' r'
      → let after = (upsert_edge id s t r c source edges).1 in
        (confidence_of s t r after ≡ some c)
        × (confidence_of s' t' r' after ≡ confidence_of s' t' r' edges)
  unfolding upsert_edge
  upsert_edge-confidence_of id s t r s' t' r' source c edges ne =
      let created : CorrelationEdge A = record {
        id = id;
        source_ref = s;
        target_ref = t;
        relationship = r;
        confidence = c;
        source = source;
      } in
      let own : is_edge s t r created ≡ true = ground arith in
      elim (Option-cases (find? (is_edge s t r) edges)) [
        | inl missing ↦
            rw (missing, upsert_edge)
              (
                added-own s t r created edges own missing,
                added-other s' t' r' created edges (is_edge-other s t r s' t' r' created ne own),
              )
        | inr (e, found) ↦
            rw (found, upsert_edge)
              (updated-own s t r c e edges found, updated-other s t r s' t' r' c edges ne)
      ]
