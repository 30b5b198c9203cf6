-- ===== src/Printer/Tests.antt =====
-- A table with a number, a truth value and a row that lacks one, and the choice of its columns.

use fireactions.Prelude.{
  Text, codes, ◌≡◌, ◌≢◌, refl, true, [], ◌∷◌, ◌++◌, none, some, fault, pos, All, lookup, text_eq,
}
use fireactions.Printer.Written.{Tablewriter, written}
use fireactions.Printer.{boolean, integer, string, Printable, unknown_column, table, print_text}

abbrev name : Text
name = codes "Name"

abbrev size : Text
size = codes "Size"

abbrev things : Printable
things = record {
  cols = name ∷ size ∷ [];
  cols_map = (name, name) ∷ (size, size) ∷ (codes "Up", codes "Up") ∷ [];
  kv =
      ((name, string (codes "a")) ∷ (size, integer (pos 12)) ∷ (codes "Up", boolean true) ∷ [])
      ∷ ((name, string (codes "b")) ∷ [])
      ∷ [];
}

everything :
    print_text things []
    ≡ table (name ∷ size ∷ []) ((codes "a" ∷ codes "12" ∷ []) ∷ (codes "b" ∷ codes "N/A" ∷ []) ∷ [])
unfolding print_text
everything = refl

unknown : print_text things (codes "Age" ∷ []) ≡ unknown_column (codes "Age") (name ∷ size ∷ [])
unfolding print_text
unknown = refl

-- The empty name is looked for among the columns, too.
empty_name : print_text things ([] ∷ []) ≡ unknown_column [] (name ∷ size ∷ [])
unfolding print_text
empty_name = refl

both_known : All (λ c. lookup c things.cols_map ≢ none) (size ∷ name ∷ [])
unfolding lookup text_eq
both_known = ((λ e. cc), ((λ e. cc), tt))

-- A library that draws the header alone and then fails.
abbrev breaks_off : Tablewriter
breaks_off = record {
  bulk = λ rows. none;
  render = λ header rows. (codes "NAME  SIZE", some (fault 1));
  message = λ e. codes "closed";
}

after_a_part :
    written breaks_off (print_text things [])
    ≡ codes "NAME  SIZEError rendering table: closed" ++ 10 ∷ []
unfolding print_text written
after_a_part = refl

names_columns :
    written breaks_off (print_text things (codes "Age" ∷ []))
    ≡ codes "Column doesn't exist: Age. Available columns: Name, Size" ++ 10 ∷ []
unfolding print_text written
names_columns = refl
