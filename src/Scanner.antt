-- ===== src/Scanner.antt =====
-- bufio.Scanner with its split function ScanLines, as agent/tail/tail.go and agent/runner/runner.go
-- use it: lines end in a newline, a carriage return before it is dropped, the last line may have no
-- newline, and a line that fills a buffer of `max` bytes ends the scan, with what the buffer does not
-- hold unread. `leftover` is what the calls of Scan after that give: the buffer, as a line.
pub mod Lines
use fireactions.Prelude.{
  Text, ℕ, zero, suc, ◌+◌, ◌≡◌, refl, Bool, true, false, List, [], ◌∷◌, ◌++◌, ltb, if◌then◌else◌,
  ◌==◌,
}
use mathlib.Core.List.{reverse}

pub record Scanned : Type 0 where
  pub lines : List Text
  pub too_long : Bool
  pub unread : Text
  pub leftover : List Text

-- A line's bytes, the last first, without a carriage return at its end.
abbrev drop_cr : Text → Text
drop_cr [] = []
drop_cr (c ∷ cs) = if c == 13 then cs else c ∷ cs

abbrev pub line_of : Text → Text
line_of held = reverse (drop_cr held)

abbrev pub add_line : Text → Scanned → Scanned
add_line l s = record {
  lines = l ∷ s.lines;
  too_long = s.too_long;
  unread = s.unread;
  leftover = s.leftover;
}

-- `held` is what has been read of the current line, the last byte first, and `n` its length.
unfoldable pub scan_from : ℕ → ℕ → Text → Text → Scanned
scan_from max n [] [] = record { lines = []; too_long = false; unread = []; leftover = [] }
scan_from max n (h ∷ held) [] = record {
  lines = line_of (h ∷ held) ∷ [];
  too_long = false;
  unread = [];
  leftover = [];
}
scan_from max n held (c ∷ rest) =
    let next = add_line (line_of held) (scan_from max 0 [] rest) in
    let more = scan_from max (suc n) (c ∷ held) rest in
    if c == 10
    then next
    else if ltb (suc n) max
    then more
    else record { lines = []; too_long = true; unread = rest; leftover = line_of (c ∷ held) ∷ [] }

unfoldable pub scan : ℕ → Text → Scanned
unfolding scan_from
scan max bytes = scan_from max 0 [] bytes

-- The scanner once its lines have been taken.
abbrev pub drained : Scanned → Scanned
drained s = record { lines = s.leftover; too_long = s.too_long; unread = s.unread; leftover = [] }
