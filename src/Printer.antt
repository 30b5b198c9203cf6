-- ===== src/Printer.antt =====
-- helper/printer/printer.go: PrintText, up to what it hands to the library that draws the table. No
-- value that the program prints is a floating-point number, and those are left out.
pub mod Written
pub mod Columns
pub mod Tests
use fireactions.Prelude.{
  Text, codes, ◌≡◌, Bool, true, false, List, [], ◌∷◌, map, Option, none, some, ℤ, lookup, text_eq,
  itoa, if◌then◌else◌,
}

-- A value of a row, by its dynamic type: `absent` is nil, and so is what a missing key gives.
pub data Cell : Type 0 where
  absent : Cell
  boolean : Bool → Cell
  integer : ℤ → Cell
  string : Text → Cell

pub record Printable : Type 0 where
  pub cols : List Text
  pub cols_map : List (Text × Text)
  pub kv : List (List (Text × Cell))

-- What is written: the message about an unknown column with the columns that there are, or a table with
-- its header and its rows.
pub data Output : Type 0 where
  unknown_column : Text → List Text → Output
  table : List Text → List (List Text) → Output

-- `r[c]`
unfoldable pub cell_at : Text → List (Text × Cell) → Cell
unfolding lookup
cell_at c r = elim (lookup c r) [ none ↦ absent | some v ↦ v ]

abbrev pub or_not_available : Cell → Cell
or_not_available absent = string (codes "N/A")
or_not_available (boolean b) = boolean b
or_not_available (integer n) = integer n
or_not_available (string s) = string s

-- The format for the value's type, and Sprintf. A nil has been replaced before.
abbrev pub formatted : Cell → Text
formatted absent = codes "%!s(<nil>)"
formatted (boolean b) = if b then codes "true" else codes "false"
formatted (integer n) = itoa n
formatted (string s) = s

unfoldable pub row_of : List Text → List (Text × Cell) → List Text
unfolding cell_at
row_of cols r = map (λ c. formatted (or_not_available (cell_at c r))) cols

abbrev pub chosen_cols : List Text → List Text → List Text
chosen_cols cols [] = cols
chosen_cols cols (c ∷ cs) = if text_eq c [] then cols else c ∷ cs

-- The loop over the columns that are asked for.
unfoldable pub first_unknown : List (Text × Text) → List Text → Option Text
unfolding lookup
first_unknown known [] = none
first_unknown known (c ∷ cs) =
    let later = first_unknown known cs in
    elim (lookup c known) [ none ↦ some c | some name ↦ later ]

unfoldable pub print_text : Printable → List Text → Output
unfolding first_unknown row_of text_eq
print_text item include_cols = elim (first_unknown item.cols_map include_cols) [
  | some c ↦ unknown_column c item.cols
  | none ↦ let cols = chosen_cols item.cols include_cols in table cols (map (row_of cols) item.kv)
]
