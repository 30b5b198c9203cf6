-- ===== src/Printer/Written.antt =====
-- helper/printer/printer.go: what PrintText writes, its errors included. What tablewriter draws, and
-- whether it fails, is a parameter.
use fireactions.Prelude.{join_by, Text, codes, List, [], ◌∷◌, ◌++◌, Option, none, some, Fault}
use fireactions.Printer.{Output, unknown_column, table}

-- `render` may have written a part of the table before it fails.
pub record Tablewriter : Type 0 where
  pub bulk : List (List Text) → Option Fault
  pub render : List Text → List (List Text) → Text × Option Fault
  pub message : Fault → Text

abbrev newline : Text
newline = 10 ∷ []

abbrev pub error_line : Tablewriter → Option Fault → Text
error_line t none = []
error_line t (some e) = codes "Error rendering table: " ++ (t.message e ++ newline)

-- The rest of PrintText from what it has chosen: the early return, Bulk and Render.
unfoldable pub written : Tablewriter → Output → Text
written t (unknown_column c cols) =
    codes "Column doesn't exist: "
    ++ (c ++ (codes ". Available columns: " ++ (join_by (codes ", ") cols ++ newline)))
written t (table header rows) = elim (t.bulk rows) [
  | some e ↦ error_line t (some e)
  | none ↦ let (text, e) = t.render header rows in text ++ error_line t e
]
