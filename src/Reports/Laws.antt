-- ===== src/Reports/Laws.antt =====
-- No cell of an exported table is a formula.
use cyber_threat_intelligenc.Prelude.{
  ℕ, String, not, all, contains, true, length, suc, ap, ◌≡◌, ◌≢◌, refl, arith, inl, inr, false,
  List, [], ◌∷◌, map, All, nat_eq, Bool-cases,
}
use native.Mathlib.Decide.{ℕ_discrete}
use cyber_threat_intelligenc.Prelude.Text.{Text, codes, starts_with}
use cyber_threat_intelligenc.Iocs.{IocRow}
use cyber_threat_intelligenc.Reports.{
  Cell, text, count, is_formula, csv_safe, csv_row, columns, to_csv,
}

-- A spreadsheet takes the cell for a number or a text: the text does not begin with "=", "+", "-",
-- "@", a tabulator or a carriage return.
abbrev pub IsInert : Cell → Type 0
IsInert (count n) = Unit
IsInert (text []) = Unit
IsInert (text (c ∷ value)) = (c ≢ 61) × (c ≢ 43) × (c ≢ 45) × (c ≢ 64) × (c ≢ 9) × (c ≢ 13)

text-IsInert : (value : Text) → is_formula value ≡ false → IsInert (text value)
unfolding is_formula starts_with ℕ_discrete
text-IsInert [] h = tt
text-IsInert (c ∷ value) h =
    let differs : (k : ℕ) → contains (61 ∷ 43 ∷ 45 ∷ 64 ∷ 9 ∷ 13 ∷ []) k ≡ true → c ≢ k =
      ground (arith, h) in
    (
      differs 61 refl,
      differs 43 refl,
      differs 45 refl,
      differs 64 refl,
      differs 9 refl,
      differs 13 refl,
    )

csv_safe-IsInert : (c : Cell) → IsInert (csv_safe c)
unfolding csv_safe is_formula starts_with ℕ_discrete
csv_safe-IsInert (count n) = tt
csv_safe-IsInert (text value) = elim (Bool-cases (is_formula value)) [
  | inl formula ↦ rw formula (text-IsInert (39 ∷ value) refl)
  | inr inert ↦ rw inert (text-IsInert value inert)
]

cells-IsInert : (cs : List Cell) → All IsInert (map csv_safe cs)
cells-IsInert [] = tt
cells-IsInert (c ∷ cs) = (csv_safe-IsInert c, cells-IsInert cs)

rows-IsInert :
    (iocs : List IocRow) → All (All IsInert) (map (λ ioc. map csv_safe (csv_row ioc)) iocs)
rows-IsInert [] = tt
rows-IsInert (ioc ∷ iocs) = (cells-IsInert (csv_row ioc), rows-IsInert iocs)

titles-IsInert :
    (titles : List String)
    → all (λ s. not (is_formula (codes s))) titles ≡ true
    → All IsInert (map (λ s. text (codes s)) titles)
titles-IsInert [] h = tt
titles-IsInert (s ∷ titles) h =
    let title : is_formula (codes s) ≡ false = ground (arith, h) in
    let others : all (λ s. not (is_formula (codes s))) titles ≡ true = ground (arith, h) in
    (text-IsInert (codes s) title, titles-IsInert titles others)

lines-length :
    (iocs : List IocRow) → length (map (λ ioc. map csv_safe (csv_row ioc)) iocs) ≡ length iocs
lines-length [] = refl
lines-length (ioc ∷ iocs) = ap suc (lines-length iocs)

-- Whatever the rows hold, the CSV export has a line for its header and one for each row, and no cell,
-- those of the header included, starts with a character that makes a spreadsheet evaluate it.
pub to_csv-IsInert :
    (iocs : List IocRow)
    → All (All IsInert) (to_csv iocs) × (length (to_csv iocs) ≡ suc (length iocs))
unfolding to_csv is_formula starts_with ℕ_discrete
to_csv-IsInert iocs = ((titles-IsInert columns refl, rows-IsInert iocs), ap suc (lines-length iocs))
