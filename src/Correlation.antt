-- ===== src/Correlation.antt =====
-- The stored relations of app/repositories/correlation_repository.py and the write and look-ups of
-- app/services/correlation_service.py. A confidence is any type of numbers.
pub mod Laws
use cyber_threat_intelligenc.Prelude.{
  Bool, true, false, ◌&&◌, ◌||◌, String, string_eq, Option, none, some, List, [], ◌∷◌, ◌++◌, map,
  keep, find?, if◌then◌else◌, ◌==◌, nat_eq,
}
use cyber_threat_intelligenc.Prelude.Text.{Text, text_eq, codes}
use cyber_threat_intelligenc.Auth.Store.{AuditLog}
use cyber_threat_intelligenc.Auth.Users.{audit}

-- `correlation_edges`, and `Edge` of app/correlation/graph.py without the key.
pub record CorrelationEdge (A : Type 0) : Type 0 where
  pub id : String
  pub source_ref : String
  pub target_ref : String
  pub relationship : String
  pub confidence : A
  pub source : String

abbrev pub Edges : Type 0 → Type 0
Edges A = List (CorrelationEdge A)

module _ {A : Type 0} where
  -- The `where` of `upsert_edge`.
  abbrev pub is_edge : String → String → String → CorrelationEdge A → Bool
  is_edge s t r e = e.source_ref == s && (e.target_ref == t && e.relationship == r)

  -- `id` is the key of a new row.
  unfoldable pub upsert_edge :
      String → String → String → String → A → String → Edges A → CorrelationEdge A × Edges A
  upsert_edge id s t r confidence source edges =
      let created : CorrelationEdge A = record {
        id = id;
        source_ref = s;
        target_ref = t;
        relationship = r;
        confidence = confidence;
        source = source;
      } in
      elim (find? (is_edge s t r) edges) [
        | none ↦ (created, edges ++ created ∷ [])
        | some e ↦ (
          record e { confidence = confidence },
          map
              (λ (e : CorrelationEdge A).
                if is_edge s t r e then record e { confidence = confidence } else e)
              edges,
        )
      ]

  unfoldable pub all_edges : Edges A → Edges A
  all_edges edges = edges

  unfoldable pub edges_touching : String → Edges A → Edges A
  edges_touching ref edges =
      keep (λ (e : CorrelationEdge A). e.source_ref == ref || e.target_ref == ref) edges

  -- The rows, and the audit log.
  unfoldable pub add_relationship :
      String
      → String
      → String
      → String
      → A
      → Option String
      → Edges A × List AuditLog
      → Edges A × List AuditLog
  unfolding upsert_edge
  add_relationship id s t r confidence user_id (edges, logs) = (
    (upsert_edge id s t r confidence "manual" edges).1,
    logs ++ audit "correlation.add" user_id (("src", s) ∷ ("dst", t) ∷ ("rel", r) ∷ []) ∷ [],
  )

-- `make_ref`
unfoldable pub make_ref : Text → Text → Text
make_ref ioc_type value = ioc_type ++ 58 ∷ value

-- `parse_ref`: what `partition(":")` gives on both sides of the first colon.
unfoldable pub parse_ref : Text → Text × Text
parse_ref [] = ([], [])
parse_ref (c ∷ s) =
    let (before, after) = parse_ref s in if c == 58 then ([], s) else (c ∷ before, after)
