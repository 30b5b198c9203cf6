-- ===== src/Printer/Columns.antt =====
-- helper/printer/printer.go: the columns of a table, and the choice of some of them.
use mathlib.Core.List.{Memᴰ}
use fireactions.Prelude.{
  Text, ◌≡◌, refl, sym, ap, ◌∙◌, ◌≢◌, inl, inr, List, [], ◌∷◌, map, Option, none, some, lookup,
  text_eq, text_eq_refl, text_eq→eq, All, Bool-cases, Option-cases, if◌then◌else◌,
}
use fireactions.Printer.{
  Cell, absent, Printable, Output, table, unknown_column, cell_at, formatted, or_not_available,
  row_of, chosen_cols, first_unknown, print_text,
}

-- The cell of a row under a column of the header.
unfoldable pub under : Text → List Text → List Text → Option Text
under c [] xs = none
under c (h ∷ hs) [] = none
under c (h ∷ hs) (x ∷ xs) = if text_eq h c then some x else under c hs xs

-- A column of what was written.
unfoldable pub column : Text → Output → List (Option Text)
unfolding under
column c (unknown_column d cols) = []
column c (table hs rows) = map (under c hs) rows

-- Every column that is shown when none is asked for can be asked for, and every row has a value for it.
pub record IsComplete (item : Printable) : Type 0 where
  pub known : All (λ c. lookup c item.cols_map ≢ none) item.cols
  pub filled : All (λ r. All (λ c. cell_at c r ≢ absent) item.cols) item.kv

under-map :
    (f : Text → Text) (c : Text) (hs : List Text) → Memᴰ c hs → under c hs (map f hs) ≡ some (f c)
unfolding under
under-map f c [] m = elim m [ ]
under-map f c (h ∷ hs) (Memᴰ.head e) = rw (← e, text_eq_refl c) refl
under-map f c (h ∷ hs) (Memᴰ.tail m) = elim (Bool-cases (text_eq h c)) [
  | inl e ↦ rw (e, text_eq→eq h c e) refl
  | inr e ↦ rw e (under-map f c hs m)
]

column-map :
    (c : Text) (cols : List Text) (rows : List (List (Text × Cell)))
    → Memᴰ c cols
    → map (under c cols) (map (row_of cols) rows)
      ≡ map (λ r. some (formatted (or_not_available (cell_at c r)))) rows
unfolding row_of
column-map c cols [] m = refl
column-map c cols (r ∷ rows) m =
    let shown : Text → Text = λ d. formatted (or_not_available (cell_at d r)) in
    rw (under-map shown c cols m) (ap (◌∷◌ (some (shown c))) (column-map c cols rows m))

first_unknown-known :
    (known : List (Text × Text)) (cs : List Text)
    → All (λ c. lookup c known ≢ none) cs
    → first_unknown known cs ≡ none
unfolding first_unknown
first_unknown-known known [] a = refl
first_unknown-known known (c ∷ cs) a = elim (Option-cases (lookup c known)) [
  | inl e ↦ absurd (a.0 e)
  | inr (n, e) ↦ rw (e, first_unknown) (first_unknown-known known cs a.1)
]

-- `print_text` with no unknown column.
pub print_text-known :
    (item : Printable) (include_cols : List Text)
    → All (λ c. lookup c item.cols_map ≢ none) include_cols
    → print_text item include_cols
      ≡ table
          (chosen_cols item.cols include_cols)
          (map (row_of (chosen_cols item.cols include_cols)) item.kv)
unfolding print_text
print_text-known item include_cols a =
    rw (first_unknown-known item.cols_map include_cols a, print_text) refl

chosen-Mem :
    (c : Text) (cols include_cols : List Text)
    → Memᴰ c cols
    → Memᴰ c include_cols
    → Memᴰ c (chosen_cols cols include_cols)
chosen-Mem c cols [] m n = m
chosen-Mem c cols (d ∷ ds) m n = elim (Bool-cases (text_eq d [])) [
  | inl e ↦ rw e m
  | inr e ↦ rw e n
]

-- Where every column that is asked for is known, each of them that is also shown by default reads, row by
-- row, as it does in the table of all columns.
pub print_text-column :
    (item : Printable) (include_cols : List Text) (c : Text)
    → All (λ d. lookup d item.cols_map ≢ none) include_cols
    → Memᴰ c include_cols
    → Memᴰ c item.cols
    → column c (print_text item include_cols) ≡ column c (print_text item [])
unfolding column
print_text-column item include_cols c a asked shown =
    ap (column c) (print_text-known item include_cols a)
    ∙ column-map c (chosen_cols item.cols include_cols) item.kv
        (chosen-Mem c item.cols include_cols shown asked)
    ∙ sym (column-map c item.cols item.kv shown)
    ∙ sym (ap (column c) (print_text-known item [] tt))
