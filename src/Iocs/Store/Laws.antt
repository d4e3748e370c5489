-- ===== src/Iocs/Store/Laws.antt =====
-- The table of indicators: one row for each key, and what the queries find.
use mathlib.Core.Option.{some-ne-none}
use cyber_threat_intelligenc.Prelude.{
  ℕ, ◌-◌, ◌≡◌, refl, ◌∙◌, inl, inr, Bool, true, false, ◌&&◌, String, string_eq, Option, none, some,
  List, [], ◌∷◌, ◌++◌, any, find?, keep, length, length-take, length-drop, drop, min, if◌then◌else◌,
  ◌==◌, arith, Bool-cases,
}
use cyber_threat_intelligenc.Prelude.Text.{Text, text_eq}
use cyber_threat_intelligenc.Iocs.{IocRow}
use cyber_threat_intelligenc.Iocs.Store.{
  is_row, get_by_type_value, change_row, Filters, Sql, search, count_hits, is_hit,
}

-- No two rows have the same type and value.
abbrev pub IsUnique : List IocRow → Type 0
IsUnique [] = Unit
IsUnique (r ∷ rs) = (any (is_row r.type r.value) rs ≡ false) × IsUnique rs

-- The columns of the key stay.
abbrev pub IsKeyed : (IocRow → IocRow) → Type 0
IsKeyed f = (r : IocRow) → ((f r).type ≡ r.type) × ((f r).value ≡ r.value)

any-change :
    (t : String) (v : Text) (type : String) (value : Text) (f : IocRow → IocRow)
    (rows : List IocRow)
    → IsKeyed f
    → any (is_row t v) (change_row type value f rows) ≡ any (is_row t v) rows
unfolding change_row
any-change t v type value f [] keyed = refl
any-change t v type value f (r ∷ rs) keyed =
    let (same_type, same_value) = keyed r in
    elim (Bool-cases (is_row type value r)) [
      | inl hit ↦ rw hit (rw (same_type, same_value) refl)
      | inr miss ↦ rw (miss, any-change t v type value f rs keyed) refl
    ]

pub change_row-IsUnique :
    (type : String) (value : Text) (f : IocRow → IocRow) (rows : List IocRow)
    → IsKeyed f
    → IsUnique rows
    → IsUnique (change_row type value f rows)
unfolding change_row
change_row-IsUnique type value f [] keyed unique = tt
change_row-IsUnique type value f (r ∷ rs) keyed (fresh, unique) =
    let (same_type, same_value) = keyed r in
    elim (Bool-cases (is_row type value r)) [
      | inl hit ↦ rw hit (rw (same_type, same_value) fresh, unique)
      | inr miss ↦ rw miss (
        any-change r.type r.value type value f rs keyed ∙ fresh,
        change_row-IsUnique type value f rs keyed unique,
      )
    ]

key-sym : (a b : String) (x y : Text) → (a == b && x == y) ≡ false → (b == a && y == x) ≡ false
key-sym a b x y differ = ground arith

any-append :
    (t : String) (v : Text) (row : IocRow) (rows : List IocRow)
    → is_row t v row ≡ false
    → any (is_row t v) rows ≡ false
    → any (is_row t v) (rows ++ row ∷ []) ≡ false
any-append t v row [] miss absent = rw miss refl
any-append t v row (r ∷ rs) miss absent = ground (arith, any-append t v row rs miss)

pub append-IsUnique :
    (row : IocRow) (rows : List IocRow)
    → get_by_type_value row.type row.value rows ≡ none
    → IsUnique rows
    → IsUnique (rows ++ row ∷ [])
unfolding get_by_type_value
append-IsUnique row [] missing unique = (refl, tt)
append-IsUnique row (r ∷ rs) missing (fresh, unique) =
    elim (Bool-cases (is_row row.type row.value r)) [
      | inl hit ↦ absurd (some-ne-none r (rw (hit, get_by_type_value) at missing))
      | inr miss ↦
          let absent : find? (is_row row.type row.value) rs ≡ none =
            rw (miss, get_by_type_value) at missing in
          (
            any-append r.type r.value row rs (key-sym r.type row.type r.value row.value miss) fresh,
            append-IsUnique row rs absent unique,
          )
    ]

abbrev pub mapped : (IocRow → IocRow) → Option IocRow → Option IocRow
mapped f none = none
mapped f (some r) = some (f r)

abbrev pub same_key : String → Text → String → Text → Bool
same_key t v type value = type == t && value == v

pub get-change :
    (type : String) (value : Text) (f : IocRow → IocRow) (rows : List IocRow)
    → IsKeyed f
    → get_by_type_value type value (change_row type value f rows)
      ≡ mapped f (get_by_type_value type value rows)
unfolding get_by_type_value change_row
get-change type value f [] keyed = refl
get-change type value f (r ∷ rs) keyed =
    let (same_type, same_value) = keyed r in
    elim (Bool-cases (is_row type value r)) [
      | inl hit ↦
          let again : is_row type value (f r) ≡ true = rw (same_type, same_value) hit in
          rw hit (rw again refl)
      | inr miss ↦ rw miss (rw miss (get-change type value f rs keyed))
    ]

pub get-append :
    (t : String) (v : Text) (row : IocRow) (rows : List IocRow)
    → get_by_type_value t v (rows ++ row ∷ []) ≡ elim (get_by_type_value t v rows) [
      | none ↦ if is_row t v row then some row else none
      | some r ↦ some r
    ]
unfolding get_by_type_value
get-append t v row [] = refl
get-append t v row (r ∷ rs) = elim (Bool-cases (is_row t v r)) [
  | inl hit ↦ rw hit refl
  | inr miss ↦ rw miss (get-append t v row rs)
]

other_key :
    (t a c : String) (v x z : Text)
    → (c == a && z == x) ≡ true
    → (a == t && x == v) ≡ false
    → (c == t && z == v) ≡ false
other_key t a c v x z hit differ = ground arith

-- The rows of another key.
pub get-change_other :
    (t type : String) (v value : Text) (f : IocRow → IocRow) (rows : List IocRow)
    → IsKeyed f
    → same_key t v type value ≡ false
    → get_by_type_value t v (change_row type value f rows) ≡ get_by_type_value t v rows
unfolding get_by_type_value change_row
get-change_other t type v value f [] keyed differ = refl
get-change_other t type v value f (r ∷ rs) keyed differ =
    let (same_type, same_value) = keyed r in
    elim (Bool-cases (is_row type value r)) [
      | inl hit ↦
          let miss : is_row t v r ≡ false = other_key t type r.type v value r.value hit differ in
          let miss' : is_row t v (f r) ≡ false = rw (same_type, same_value) miss in
          rw hit (rw (miss, miss') refl)
      | inr pass ↦ rw pass (elim (Bool-cases (is_row t v r)) [
        | inl found ↦ rw found refl
        | inr miss ↦ rw miss (get-change_other t type v value f rs keyed differ)
      ])
    ]

-- A page of a search holds as many rows as are left of those that `total` counts, and no more than
-- its size. The order of a query repeats and drops no row.
pub search_counted :
    (Q : Sql) (f : Filters) (limit offset : ℕ) (rows : List IocRow)
    → ((rs : List IocRow) → length (Q.by_score_and_update rs) ≡ length rs)
    → length (search Q f limit offset rows) ≡ min limit (count_hits Q f rows - offset)
unfolding search count_hits
search_counted Q f limit offset rows counts =
    let hits = Q.by_score_and_update (keep (is_hit Q f) rows) in
    omega (
      arith,
      length-take limit (drop offset hits),
      length-drop offset hits,
      counts (keep (is_hit Q f) rows),
    )
