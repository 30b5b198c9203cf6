-- ===== src/Tail/Tests.antt =====
-- Tails of small files.
use fireactions.Prelude.{
  Text, codes, ◌+◌, ◌*◌, ◌≤◌, ◌≡◌, ◌⊎◌, refl, true, [], ◌∷◌, none, arith, has_byte,
}
use fireactions.Scanner.{scan}
use fireactions.Scanner.Lines.{IsLine, unlines}
use fireactions.Tail.{TailConfig, text, follow_from}
use fireactions.Tail.Goroutine.{
  Place, Goroutine, tail_file, stop, run_turn, following, waiting, scanning, returned, scans, hears,
  is_written, is_done, Waited,
}
use fireactions.Tail.Stop.{Alone, at_first, turn, turns, CanGoOn, stop-Alone}
use fireactions.Tail.Follow.{sent_as, writes, follow-writes}

abbrev one : Text
one = codes "one"

abbrev two : Text
two = codes "two"

one-IsLine : IsLine 65536 one
unfolding has_byte
one-IsLine = record { no_newline = refl; fits = omega arith }

two-IsLine : IsLine 65536 two
unfolding has_byte
two-IsLine = record { no_newline = refl; fits = omega arith }

follow-writes_example :
    follow_from 65536 true (scan 65536 (unlines (one ∷ []))) (writes ((two ∷ []) ∷ []))
    ≡ record { sent = sent_as (one ∷ two ∷ []); error = none; waiting = true }
follow-writes_example =
    follow-writes 65536 true (one ∷ []) ((two ∷ []) ∷ []) (one-IsLine, tt) ((two-IsLine, tt), tt)

-- A tail in follow mode that is stopped while it waits for its reader, and one that hears of a write first.
abbrev config : TailConfig
config = record { follow = true; location = none; max_line_size = 0; re_open = true }

abbrev at_place : Place → Goroutine
at_place p = record (tail_file config) { cancelled = true; place = p }

abbrev sends_one : Place
sends_one = following (text (codes "a") ∷ [])

stopped_at_write : Alone (stop (record (tail_file config) { place = waiting })) (at_place returned)
unfolding stop run_turn
stopped_at_write =
    turn is_done
      (turn {h = at_place scanning} {u = at_place sends_one} (scans (text (codes "a") ∷ []))
        (turn {u = at_place scanning} (hears is_written) at_first refl refl) refl refl)
      refl refl

stop-Alone_example :
    (turns stopped_at_write ≤ 8 + 3 * 1)
    × (Waited (at_place returned) ⊎ CanGoOn (at_place returned))
unfolding stopped_at_write
stop-Alone_example =
    stop-Alone (record (tail_file config) { place = waiting }) (at_place returned) stopped_at_write
