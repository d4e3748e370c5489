-- ===== src/Iocs/Service/Laws.antt =====
-- What `upsert` does to the table of indicators.
use mathlib.Core.Path.{subst}
use cyber_threat_intelligenc.Prelude.{
  ℕ, ◌+◌, ◌≡◌, refl, sym, ap, ◌∙◌, true, false, ◌&&◌, String, string_eq, Option, none, some, List,
  length, if◌then◌else◌, ◌==◌, arith,
}
use cyber_threat_intelligenc.Prelude.Text.{Text, text_eq}
use cyber_threat_intelligenc.Errors.{Attempt, returned, thrown}
use cyber_threat_intelligenc.Indicators.{type_value}
use cyber_threat_intelligenc.Indicators.Classify.{ParsedIndicator}
use cyber_threat_intelligenc.Scoring.Engine.{ScoreResult}
use cyber_threat_intelligenc.Enrichment.{Facets}
use cyber_threat_intelligenc.Iocs.{IocRow}
use cyber_threat_intelligenc.Iocs.Store.{get_by_type_value, is_row}
use cyber_threat_intelligenc.Iocs.Store.Laws.{
  IsUnique, IsKeyed, change_row-IsUnique, append-IsUnique, get-change, get-append, get-change_other,
  mapped, same_key,
}
use cyber_threat_intelligenc.Iocs.Service.{
  Platform, Session, Submission, prepare, score_of, created_row, updated_row, stored, write, upsert,
  upsert_prepared, seen_before,
}

key_refl : (t : String) (v : Text) → (t == t && v == v) ≡ true
key_refl t v = ground arith

module _ (W : Platform) where
  updated_row-IsKeyed :
      (now : ℕ) (sub : Submission) (score : ScoreResult) → IsKeyed (updated_row W now sub score)
  unfolding updated_row
  updated_row-IsKeyed now sub score r = (refl, refl)

  -- What the table holds, and what the caller gets.
  abbrev IsStored : ℕ → String → Text → IocRow × List IocRow → List IocRow → Type 0
  IsStored n type value (row, rows') rows =
      (get_by_type_value type value rows' ≡ some row)
      × (row.sightings ≡ seen_before (get_by_type_value type value rows) + 1)
      × ((t : String) (v : Text)
          → same_key t v type value ≡ false
          → get_by_type_value t v rows' ≡ get_by_type_value t v rows)

  stored-IsStored :
      (now : ℕ) (sub : Submission) (p : ParsedIndicator) (score : ScoreResult) (o : Option IocRow)
      (rows : List IocRow)
      → get_by_type_value (type_value p.type) p.value rows ≡ o
      → IsStored now (type_value p.type) p.value (stored W now sub p score o rows) rows
  unfolding stored created_row
  stored-IsStored now sub p score none rows missing =
      let row = created_row W (W.ioc_id (length rows)) now sub p score in
      let type = type_value p.type in
      (
        get-append type p.value row rows ∙ rw (missing, key_refl type p.value) refl,
        ap (λ o. seen_before o + 1) (sym missing),
        λ t v differ. get-append t v row rows ∙ left_over t v (get_by_type_value t v rows) differ,
      )
    where
      left_over :
          (t : String) (v : Text) (o : Option IocRow)
          → same_key t v (type_value p.type) p.value ≡ false
          → elim o [
            | none ↦
                if is_row t v (created_row W (W.ioc_id (length rows)) now sub p score)
                then some (created_row W (W.ioc_id (length rows)) now sub p score)
                else none
            | some r ↦ some r
          ]
            ≡ o
      left_over t v none differ = rw differ refl
      left_over t v (some r) differ = refl
  stored-IsStored now sub p score (some old) rows found =
      let keyed = updated_row-IsKeyed now sub score in
      let f = updated_row W now sub score in
      let type = type_value p.type in
      (
        get-change type p.value f rows keyed ∙ ap (mapped f) found,
        ap (λ o. seen_before o + 1) (sym found),
        λ t v differ. get-change_other t type v p.value f rows keyed differ,
      )

  stored-IsUnique :
      (now : ℕ) (sub : Submission) (p : ParsedIndicator) (score : ScoreResult) (o : Option IocRow)
      (rows : List IocRow)
      → get_by_type_value (type_value p.type) p.value rows ≡ o
      → IsUnique rows
      → IsUnique (stored W now sub p score o rows).1
  unfolding stored created_row
  stored-IsUnique now sub p score none rows missing unique =
      append-IsUnique (created_row W (W.ioc_id (length rows)) now sub p score) rows missing unique
  stored-IsUnique now sub p score (some old) rows found unique =
      change_row-IsUnique (type_value p.type) p.value (updated_row W now sub score) rows
        (updated_row-IsKeyed now sub score) unique

  prepared-IsUnique :
      (now : ℕ) (sub : Submission) (a : Attempt (ParsedIndicator × Facets)) (s : Session)
      → IsUnique s.iocs
      → IsUnique (upsert_prepared W now sub a s).1.iocs
  unfolding upsert_prepared write
  prepared-IsUnique now sub (thrown e) s unique = unique
  prepared-IsUnique now sub (returned (p, facets)) s unique =
      let o = get_by_type_value (type_value p.type) p.value s.iocs in
      stored-IsUnique now sub p (score_of W now sub facets o) o s.iocs refl unique

  pub upsert-IsUnique :
      (now : ℕ) (sub : Submission) (s : Session)
      → IsUnique s.iocs
      → IsUnique (upsert W now sub s).1.iocs
  unfolding upsert
  upsert-IsUnique now sub s unique = prepared-IsUnique now sub (prepare W sub) s unique

  -- The outcome of an `upsert` of an indicator of the key.
  abbrev pub IsUpserted : String → Text → Session → Attempt IocRow × Session → Type 0
  IsUpserted type value s r =
      (row : IocRow) × (r.0 ≡ returned row)
      × (get_by_type_value type value r.1.iocs ≡ some row)
      × (row.sightings ≡ seen_before (get_by_type_value type value s.iocs) + 1)
      × ((t : String) (v : Text)
          → same_key t v type value ≡ false
          → get_by_type_value t v r.1.iocs ≡ get_by_type_value t v s.iocs)

  prepared-IsUpserted :
      (now : ℕ) (sub : Submission) (p : ParsedIndicator) (facets : Facets) (s : Session)
      → IsUpserted
          (type_value p.type)
          p.value
          s
          (upsert_prepared W now sub (returned (p, facets)) s)
  unfolding upsert_prepared write
  prepared-IsUpserted now sub p facets s =
      let o = get_by_type_value (type_value p.type) p.value s.iocs in
      let score = score_of W now sub facets o in
      let (here, sighted, others) = stored-IsStored now sub p score o s.iocs refl in
      ((stored W now sub p score o s.iocs).0, refl, here, sighted, others)

  -- A submission that is classified and enriched ends with the row of its indicator in the table,
  -- which the caller gets: new with one sighting, or as it was seen before with one more. The rows
  -- of other indicators stay as they are.
  pub upsert_exact :
      (now : ℕ) (sub : Submission) (p : ParsedIndicator) (facets : Facets) (s : Session)
      → prepare W sub ≡ returned (p, facets)
      → IsUpserted (type_value p.type) p.value s (upsert W now sub s)
  unfolding upsert
  upsert_exact now sub p facets s good =
      subst (λ a. IsUpserted (type_value p.type) p.value s (upsert_prepared W now sub a s))
        (sym good) (prepared-IsUpserted now sub p facets s)
