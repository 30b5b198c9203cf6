-- ===== src/Tail/Window.antt =====
-- agent/tail/tail.go: tailLines, which reads the last 100 bytes for each line that is asked for.
use fireactions.Prelude.{
  Text, ℕ, zero, suc, ◌+◌, ◌-◌, ◌*◌, ◌≤◌, ◌≡◌, refl, sym, ap, ◌∙◌, inl, inr, true, false, List, [],
  ◌∷◌, ◌++◌, map, ok, ltb, ◌==◌, length, length-append, length-map, All, All-append, Bool-cases,
  drop, arith, leb-cases, has_byte,
}
use mathlib.Core.List.{map-append, append_assoc}
use fireactions.Scanner.{scan}
use fireactions.Scanner.Lines.{IsLine, unlines, text_of, scan-text, unlines-append}
use fireactions.Tail.{keep_last, tail_lines}

drop-past : (l rest : Text) (k : ℕ) → drop (length l + k) (l ++ rest) ≡ drop k rest
drop-past [] rest k = ap (λ n. drop n rest) (omega arith)
drop-past (c ∷ l) rest k =
    let shift : suc (length l) + k ≡ suc (length l + k) = omega arith in
    ap (λ n. drop n (c ∷ (l ++ rest))) shift ∙ drop-past l rest k

drop-within : (l rest : Text) (k : ℕ) → k ≤ length l → drop k (l ++ rest) ≡ drop k l ++ rest
drop-within l rest zero h = refl
drop-within [] rest (suc k) h = ground arith
drop-within (c ∷ l) rest (suc k) h = drop-within l rest k (omega (arith, h))

drop-IsLine : (max k : ℕ) (l : Text) → IsLine max l → IsLine max (drop k l)
unfolding has_byte
drop-IsLine max zero l h = h
drop-IsLine max (suc k) [] h = h
drop-IsLine max (suc k) (c ∷ l) h =
    let none_left : has_byte l 10 ≡ false = ground (arith, h.no_newline) in
    drop-IsLine max k l (record { no_newline = none_left; fits = omega (arith, h.fits) })

-- What is left of lines behind a position in them is lines, too.
cut-unlines :
    (max k : ℕ) (ls : List Text) (rest : Text)
    → All (IsLine max) ls
    → k ≤ length (unlines ls)
    → (ms : List Text) × All (IsLine max) ms × (drop k (unlines ls ++ rest) ≡ unlines ms ++ rest)
cut-unlines max k [] rest a h =
    let start : k ≡ 0 = omega (arith, h) in ([], tt, ap (λ n. drop n rest) start)
cut-unlines max k (l ∷ ls) rest a h = elim (leb-cases k (length l)) [
  | inl i ↦ (
    drop k l ∷ ls,
    (drop-IsLine max k l a.0, a.1),
    ap (drop k) (append_assoc l (10 ∷ unlines ls) rest)
        ∙ drop-within l (10 ∷ unlines ls ++ rest) k i
        ∙ sym (append_assoc (drop k l) (10 ∷ unlines ls) rest),
  )
  | inr i ↦
      let j = k - suc (length l) in
      let split : k ≡ length l + suc j = omega arith in
      let within : j ≤ length (unlines ls) = omega (arith, length-append l (10 ∷ unlines ls), h) in
      let cut = cut-unlines max j ls rest a.1 within in
      (
        cut.0,
        cut.1,
        ap (drop k) (append_assoc l (10 ∷ unlines ls) rest)
            ∙ ap (λ n. drop n (l ++ 10 ∷ (unlines ls ++ rest))) split
            ∙ drop-past l (10 ∷ (unlines ls ++ rest)) (suc j)
            ∙ cut.2,
      )
]

drop-append : (ls ms : List Text) → drop (length ls) (ls ++ ms) ≡ ms
drop-append [] ms = refl
drop-append (l ∷ ls) ms = drop-append ls ms

keep_last-append : (n : ℕ) (ls ms : List Text) → length ms ≡ n → keep_last n (ls ++ ms) ≡ ms
unfolding keep_last
keep_last-append n [] ms e = ground (arith, e)
keep_last-append n (l ∷ ls) ms e =
    let more : ltb n (suc (length (ls ++ ms))) ≡ true = ground (arith, length-append ls ms) in
    let gone : suc (length (ls ++ ms)) - n ≡ suc (length ls) = omega (arith, length-append ls ms) in
    rw (more, gone) (drop-append (l ∷ ls) ms)

tail_lines-scanned :
    (n max : ℕ) (file : Text) (lines : List Text) (unread : Text) (more : List Text)
    → length file == 0 ≡ false
    → scan max (drop (length file - n * 100) file)
      ≡ record { lines = lines; too_long = false; unread = unread; leftover = more }
    → tail_lines n max file ≡ ok (keep_last n lines)
unfolding tail_lines
tail_lines-scanned n max file lines unread more e s = rw (e, s) refl

tail_lines-empty :
    (n max : ℕ) (file : Text) → length file == 0 ≡ true → tail_lines n max file ≡ ok []
unfolding tail_lines
tail_lines-empty n max file e = rw e refl

no_lines :
    (before last : List Text) → length (unlines before ++ unlines last) == 0 ≡ true → last ≡ []
no_lines before [] e = refl
no_lines before (l ∷ last) e = ground (
  arith,
  length-append (unlines before) (unlines (l ∷ last)),
  length-append l (10 ∷ unlines last),
)

-- Where the n lines at a file's end take 100 bytes each on average at most, with their newlines, and
-- no line fills the buffer, the tail of n lines is exactly those.
pub tail_lines_exact :
    (max n : ℕ) (before last : List Text)
    → All (IsLine max) before
    → All (IsLine max) last
    → length last ≡ n
    → length (unlines last) ≤ n * 100
    → tail_lines n max (unlines before ++ unlines last) ≡ ok (map text_of last)
tail_lines_exact max n before last a b e h =
    let file = unlines before ++ unlines last in
    let sizes = length-append (unlines before) (unlines last) in
    let within : length file - n * 100 ≤ length (unlines before) = omega (arith, sizes, h) in
    let cut = cut-unlines max (length file - n * 100) before (unlines last) a within in
    let ms = cut.0 in
    let scanned =
      ap (scan max) (cut.2 ∙ sym (unlines-append ms last))
      ∙ scan-text max (ms ++ last) (All-append (IsLine max) ms last cut.1 b) in
    elim (Bool-cases (length file == 0)) [
      | inl none_there ↦
          (tail_lines-empty n max file none_there
            ∙ ap (λ x. ok (map text_of x)) (sym (no_lines before last none_there)))
      | inr some_there ↦
          tail_lines-scanned n max file _ [] [] some_there scanned
          ∙ ap (λ x. ok (keep_last n x)) (map-append text_of ms last)
          ∙ ap ok
              (keep_last-append n (map text_of ms) (map text_of last) (length-map text_of last ∙ e))
    ]

-- Where the last line of a file has 100 bytes or more, and does not fill the buffer, the tail of one
-- line is what is left of it within the last 100 bytes of the file: its last 99 bytes, whatever lines
-- stand before it.
pub tail_lines_truncates :
    (max : ℕ) (before : List Text) (l : Text)
    → IsLine max l
    → 100 ≤ length l
    → tail_lines 1 max (unlines before ++ unlines (l ∷ []))
      ≡ ok (text_of (drop (length l - 99) l) ∷ [])
unfolding keep_last
tail_lines_truncates max before l h long =
    let file = unlines before ++ unlines (l ∷ []) in
    let start = length l - 99 in
    let sizes = length-append (unlines before) (unlines (l ∷ [])) in
    let last_size = length-append l (10 ∷ []) in
    let some_there : length file == 0 ≡ false = ground (arith, sizes, last_size) in
    let offset : length file - 1 * 100 ≡ length (unlines before) + start =
      omega (arith, sizes, last_size, long) in
    let window =
      ap (λ n. drop n file) offset
      ∙ drop-past (unlines before) (unlines (l ∷ [])) start
      ∙ drop-within l (10 ∷ []) start (omega arith) in
    tail_lines-scanned 1 max file _ [] [] some_there
      (ap (scan max) window ∙ scan-text max (drop start l ∷ []) (drop-IsLine max start l h, tt))
