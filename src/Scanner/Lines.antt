-- ===== src/Scanner/Lines.antt =====
-- What a scan gives for a text that is made of lines.
use fireactions.Prelude.{
  Text, ℕ, suc, ◌+◌, ◌<◌, ◌≡◌, refl, sym, ap, ◌∙◌, false, List, [], ◌∷◌, ◌++◌, has_byte, length,
  All, arith,
}
use mathlib.Core.List.{map, reverse, append_assoc, append-nil, reverse-cons}
use fireactions.Scanner.{Scanned, line_of, add_line, scan_from, scan}

-- A line without a newline in it that fits into the buffer.
pub record IsLine (max : ℕ) (l : Text) : Type 0 where
  pub no_newline : has_byte l 10 ≡ false
  pub fits : length l < max

-- Lines, each with its newline.
abbrev pub unlines : List Text → Text
unlines [] = []
unlines (l ∷ ls) = l ++ 10 ∷ unlines ls

-- Lines in front of what a scan gives.
abbrev pub add_lines : List Text → Scanned → Scanned
add_lines [] s = s
add_lines (l ∷ ls) s = add_line l (add_lines ls s)

-- The byte that is read next, held.
reverse-hold : (c : ℕ) (l held : Text) → reverse (c ∷ l) ++ held ≡ reverse l ++ (c ∷ held)
reverse-hold c l held =
    ap (λ x. x ++ held) (reverse-cons c l) ∙ append_assoc (reverse l) (c ∷ []) held

-- The bytes of a line are held until its newline.
scan_from-line :
    (max n : ℕ) (held l rest : Text)
    → has_byte l 10 ≡ false
    → n + length l < max
    → scan_from max n held (l ++ 10 ∷ rest) ≡ add_line (line_of (reverse l ++ held)) (scan max rest)
unfolding scan_from scan has_byte
scan_from-line max n [] [] rest h k = refl
scan_from-line max n (b ∷ held) [] rest h k = refl
scan_from-line max n [] (c ∷ l) rest h k =
    ground (arith, scan_from-line max (suc n) (c ∷ []) l rest, reverse-hold c l [])
scan_from-line max n (b ∷ held) (c ∷ l) rest h k =
    ground (arith, scan_from-line max (suc n) (c ∷ b ∷ held) l rest, reverse-hold c l (b ∷ held))

-- A line's text: without a carriage return at its end.
abbrev pub text_of : Text → Text
text_of l = line_of (reverse l)

scan-line :
    (max : ℕ) (l rest : Text)
    → IsLine max l
    → scan max (l ++ 10 ∷ rest) ≡ add_line (text_of l) (scan max rest)
unfolding scan scan_from
scan-line max l rest h =
    let fits : 0 + length l < max = omega (arith, h.fits) in
    scan_from-line max 0 [] l rest h.no_newline fits
    ∙ ap (λ x. add_line (line_of x) (scan max rest)) (append-nil (reverse l))

pub unlines-append :
    (ls : List Text) (ms : List Text) → unlines (ls ++ ms) ≡ unlines ls ++ unlines ms
unlines-append [] ms = refl
unlines-append (l ∷ ls) ms =
    ap (λ x. l ++ 10 ∷ x) (unlines-append ls ms)
    ∙ sym (append_assoc l (10 ∷ unlines ls) (unlines ms))

pub scan-unlines :
    (max : ℕ) (ls : List Text) (rest : Text)
    → All (IsLine max) ls
    → scan max (unlines ls ++ rest) ≡ add_lines (map text_of ls) (scan max rest)
scan-unlines max [] rest h = refl
scan-unlines max (l ∷ ls) rest h =
    ap (scan max) (append_assoc l (10 ∷ unlines ls) rest)
    ∙ scan-line max l (unlines ls ++ rest) h.0
    ∙ ap (add_line (text_of l)) (scan-unlines max ls rest h.1)

pub add_lines_parts :
    (ls : List Text) (s : Scanned)
    → ((add_lines ls s).lines ≡ ls ++ s.lines)
      × ((add_lines ls s).too_long ≡ s.too_long)
      × ((add_lines ls s).unread ≡ s.unread)
      × ((add_lines ls s).leftover ≡ s.leftover)
add_lines_parts [] s = (refl, refl, refl, refl)
add_lines_parts (l ∷ ls) s = let h = add_lines_parts ls s in (ap (◌∷◌ l) h.0, h.1, h.2, h.3)

-- The last line without a newline.
scan_from-last :
    (max n h : ℕ) (held l : Text)
    → has_byte l 10 ≡ false
    → n + length l < max
    → scan_from max n (h ∷ held) l ≡ record {
      lines = line_of (reverse l ++ h ∷ held) ∷ [];
      too_long = false;
      unread = [];
      leftover = [];
    }
unfolding scan_from has_byte
scan_from-last max n b held [] h k = refl
scan_from-last max n b held (c ∷ l) h k =
    ground (arith, scan_from-last max (suc n) c (b ∷ held) l, reverse-hold c l (b ∷ held))

pub scan-last :
    (max c : ℕ) (l : Text)
    → IsLine max (c ∷ l)
    → scan max (c ∷ l)
      ≡ record { lines = text_of (c ∷ l) ∷ []; too_long = false; unread = []; leftover = [] }
unfolding scan scan_from has_byte
scan-last max c l h =
    ground (arith, scan_from-last max 1 c [] l, reverse-cons c l, h.no_newline, h.fits)

pub scan-text :
    (max : ℕ) (ls : List Text)
    → All (IsLine max) ls
    → scan max (unlines ls)
      ≡ record { lines = map text_of ls; too_long = false; unread = []; leftover = [] }
unfolding scan scan_from
scan-text max [] h = refl
scan-text max (l ∷ ls) h =
    scan-line max l (unlines ls) h.0 ∙ ap (add_line (text_of l)) (scan-text max ls h.1)
