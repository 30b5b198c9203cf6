-- ===== src/Agent/Logs.antt =====
-- agent/rpc.go: what GetLogs sends of a log file that is not followed.
use fireactions.Prelude.{
  Text, ℕ, zero, suc, ◌*◌, ◌≤◌, ◌<◌, ◌≡◌, refl, ap, ◌∙◌, false, List, [], ◌∷◌, ◌++◌, map, Option,
  none, some, ok, Fault, pos, arith, All, length,
}
use mathlib.Core.List.{map-map, append-nil}
use fireactions.Scanner.Lines.{IsLine, unlines, text_of}
use fireactions.Tail.{
  tail_sought, produce_from, Line, text, Followed, produce, tail_lines, read_lines, after, seek_end,
  seek_from,
}
use fireactions.Tail.Follow.{sent_as, read_lines-unlines}
use fireactions.Tail.Window.{tail_lines_exact}
use fireactions.Tail
use fireactions.Agent.{serve, at_end, tail_config, get_logs, contents}

-- A line as it is sent: with a newline, whatever its end was in the file.
abbrev pub ended : Text → Text
ended l = text_of l ++ 10 ∷ []

abbrev whole_of : List Line → Followed
whole_of sent = record { sent = sent; error = none; waiting = false }

abbrev pub whole : List Text → Followed
whole ls = whole_of (sent_as ls)

serve-sent_as :
    (send : ℕ → Option Fault) (n patience : ℕ) (ls : List Text) (f : Followed)
    → ((k : ℕ) → send k ≡ none)
    → length ls < patience
    → serve send n patience (sent_as ls) f ≡ record { sent = map ended ls; outcome = at_end f }
unfolding serve
serve-sent_as send n zero ls f s h = ground arith
serve-sent_as send n (suc p) [] f s h = refl
serve-sent_as send n (suc p) (l ∷ ls) f s h =
    let later = serve-sent_as send (suc n) p ls f s (omega (arith, h)) in rw (s n, later) refl

produce-whole :
    (ls : List Text) (es : List Tail.Happening)
    → All (IsLine 1048576) ls
    → produce (tail_config false (pos 0)) (some (unlines ls)) es ≡ whole ls
unfolding produce tail_config
produce-whole ls es h = ap whole_of (read_lines-unlines 1048576 ls h)

-- Asked for all lines of a file of lines, without following it, GetLogs sends each of them once, in
-- order, and with its newline, and then returns nil: where no line has a MiB, no send fails, and the
-- stream's context outlives the lines.
pub get_logs-whole :
    (send : ℕ → Option Fault) (patience : ℕ) (ls : List Text) (es : List Tail.Happening)
    → ((k : ℕ) → send k ≡ none)
    → length ls < patience
    → All (IsLine 1048576) ls
    → get_logs send patience (contents (unlines ls)) es false (pos 0)
      ≡ record { sent = map ended ls; outcome = some (ok tt) }
unfolding get_logs at_end
get_logs-whole send patience ls es s h a =
    ap (λ f. serve send 0 patience f.sent f) (produce-whole ls es a)
    ∙ serve-sent_as send 0 patience ls (whole ls) s h

produce-tail :
    (n : ℕ) (file : Text) (last : List Text) (es : List Tail.Happening)
    → tail_lines (suc n) 1048576 file ≡ ok (map text_of last)
    → produce (tail_config false (pos (suc n))) (some file) es ≡ whole last
unfolding produce tail_config
produce-tail n file last es h =
    ap (λ r. produce_from (tail_config false (pos (suc n))) es (tail_sought r)) h
    ∙ ap whole_of (append-nil _ ∙ map-map text text_of last)

-- Asked for the last n lines of a file of lines, without following it, GetLogs sends exactly those, each
-- with its newline, and then returns nil: where they take 100 bytes each on average at most, with their
-- newlines, no line of the file has a MiB, no send fails, and the stream's context outlives the lines.
pub get_logs-tail :
    (send : ℕ → Option Fault) (patience n : ℕ) (before last : List Text) (es : List Tail.Happening)
    → ((k : ℕ) → send k ≡ none)
    → length last < patience
    → All (IsLine 1048576) before
    → All (IsLine 1048576) last
    → length last ≡ suc n
    → length (unlines last) ≤ suc n * 100
    → get_logs send patience (contents (unlines before ++ unlines last)) es false (pos (suc n))
      ≡ record { sent = map ended last; outcome = some (ok tt) }
unfolding get_logs at_end
get_logs-tail send patience n before last es s h a b e k =
    let file = unlines before ++ unlines last in
    ap (λ f. serve send 0 patience f.sent f)
      (produce-tail n file last es (tail_lines_exact 1048576 (suc n) before last a b e k))
    ∙ serve-sent_as send 0 patience last (whole last) s h
