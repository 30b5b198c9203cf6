-- ===== src/Tail/Follow.antt =====
-- agent/tail/tail.go: the loop of follow mode against the writes to the file, each of which it reads
-- with a new scanner.
use fireactions.Prelude.{
  concat, Text, ℕ, ◌≡◌, refl, sym, ap, ◌∙◌, Bool, true, false, List, [], ◌∷◌, ◌++◌, map, none, All,
}
use mathlib.Core.List.{append-nil, map-append, map-map}
use fireactions.Scanner.{Scanned, scan}
use fireactions.Scanner.Lines.{IsLine, unlines, text_of, scan-text, scan-last}
use fireactions.Tail.{Line, text, Happening, written, Followed, after, read_lines, follow_from}

-- The writes of lines, as the loop hears of them.
abbrev pub writes : List (List Text) → List Happening
writes [] = []
writes (w ∷ ws) = written (unlines w) ∷ writes ws

abbrev pub sent_as : List Text → List Line
sent_as ls = map (λ l. text (text_of l)) ls

read_lines-text :
    (ls : List Text)
    → read_lines (record { lines = map text_of ls; too_long = false; unread = []; leftover = [] })
      ≡ sent_as ls
unfolding read_lines
read_lines-text ls = append-nil _ ∙ map-map text text_of ls

pub read_lines-unlines :
    (max : ℕ) (ls : List Text)
    → All (IsLine max) ls
    → read_lines (scan max (unlines ls)) ≡ sent_as ls
read_lines-unlines max ls h = ap read_lines (scan-text max ls h) ∙ read_lines-text ls

abbrev pub still_waiting : List Line → Followed
still_waiting ls = record { sent = ls; error = none; waiting = true }

-- As long as every write ends with the end of a line, and no line fills the buffer, the loop sends each
-- line of the file and of the writes once, whole and in order, and goes on waiting without an error.
pub follow-writes :
    (max : ℕ) (reopens : Bool) (first : List Text) (ws : List (List Text))
    → All (IsLine max) first
    → All (All (IsLine max)) ws
    → follow_from max reopens (scan max (unlines first)) (writes ws)
      ≡ record { sent = sent_as (first ++ concat ws); error = none; waiting = true }
unfolding follow_from
follow-writes max reopens first [] h hs =
    ap still_waiting (read_lines-unlines max first h ∙ ap sent_as (sym (append-nil first)))
follow-writes max reopens first (w ∷ ws) h hs =
    let here = read_lines (scan max (unlines first)) in
    let all_read : (scan max (unlines first)).unread ≡ [] =
      ap Scanned.unread (scan-text max first h) in
    ap (λ u. after here (follow_from max reopens (scan max (u ++ unlines w)) (writes ws))) all_read
    ∙ ap (after here) (follow-writes max reopens w ws hs.0 hs.1)
    ∙ ap (λ s. still_waiting (s ++ sent_as (w ++ concat ws))) (read_lines-unlines max first h)
    ∙ ap still_waiting (sym (map-append (λ l. text (text_of l)) first (w ++ concat ws)))

-- At the end of the file, a line that is written in two pieces, of which the first is not empty and
-- neither fills the buffer, is sent as two lines, when the loop reads between them.
pub follow-splits :
    (max : ℕ) (reopens : Bool) (c : ℕ) (l rest : Text)
    → IsLine max (c ∷ l)
    → IsLine max rest
    → follow_from max reopens (scan max []) (written (c ∷ l) ∷ written (unlines (rest ∷ [])) ∷ [])
      ≡ record { sent = sent_as ((c ∷ l) ∷ rest ∷ []); error = none; waiting = true }
unfolding follow_from
follow-splits max reopens c l rest h hr =
    let ends = scan-last max c l h in rw (ends, scan-text max (rest ∷ []) (hr, tt)) refl
